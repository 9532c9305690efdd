-- ===== src/UserIf.antt =====
-- c-src/main/user-if.c: how the listener cuts the byte stream of a client into messages. A client's
-- buffer is the list of the bytes that were read into it, so `bytes_read` is its length; the results
-- of `read` and `realloc` are arguments. A header has 8 bytes, the last four of which are the size of
-- the body, low byte first, as on the machines that the agent is built for.
pub mod Framing
pub mod Stream
mod Tests
use jauto_profiler_mcp.Prelude.{
  ℕ, zero, suc, ◌+◌, ◌-◌, ◌*◌, ◌^◌, Bool, true, false, not, List, [], ◌∷◌, ◌++◌, Option, none, some,
  ltb, ◌==◌, if◌then◌else◌, length, get_elem?,
}

-- UIF_MAX_BODY_SIZE
abbrev pub max_body_size : ℕ
max_body_size = 1048576

-- UIF_MSG_HDR_SIZE
abbrev pub msg_hdr_size : ℕ
msg_hdr_size = 8

-- `struct uif_client_ctx`
pub record ClientCtx : Type 0 where
  pub buf : List ℕ
  pub buf_alloc : ℕ
  pub buf_expected : ℕ

-- the result of `read`: an error or the end of the stream, and whether it only asks to try again,
-- or bytes
pub data ReadResult : Type 0 where
  failed : Bool → ReadResult
  got : List ℕ → ReadResult

-- what the handler does to the client: close it, or keep it, with the messages that were delivered
pub data Handled : Type 0 where
  closed : Handled
  kept : ClientCtx → List (List ℕ) → Handled

abbrev pub byte_at : List ℕ → ℕ → ℕ
byte_at buf i = elim (get_elem? buf i) [ none ↦ 0 | some b ↦ b ]

-- `msg->size`
unfoldable pub body_size : List ℕ → ℕ
body_size buf =
    byte_at buf 4 + byte_at buf 5 * 2 ^ 8 + byte_at buf 6 * 2 ^ 16 + byte_at buf 7 * 2 ^ 24

-- the state of a client that `accept_client` makes
unfoldable pub accepted : ClientCtx
accepted = record { buf = []; buf_alloc = msg_hdr_size; buf_expected = msg_hdr_size }

-- the size that `handle_client_data` asks the kernel for
unfoldable pub request : ClientCtx → ℕ
request ctx = ctx.buf_expected - length ctx.buf

-- the end of `handle_client_data`: a whole message goes to the handler, and the buffer starts again
pub deliver : ClientCtx → Handled
deliver ctx =
    if length ctx.buf == ctx.buf_expected
    then kept (record ctx { buf = []; buf_expected = msg_hdr_size }) (ctx.buf ∷ [])
    else kept ctx []

-- the step of `handle_client_data` at a whole header: the room that the body needs
pub expect_body : Bool → ClientCtx → Handled
unfolding deliver
expect_body realloc_ok ctx =
    let size = body_size ctx.buf in
    if ltb max_body_size size
    then closed
    else if not (ltb 0 size)
    then deliver ctx
    else let needed = msg_hdr_size + size in
      if not (ltb ctx.buf_alloc needed)
      then deliver (record ctx { buf_expected = needed })
      else if realloc_ok
      then deliver (record ctx { buf_alloc = needed; buf_expected = needed })
      else closed

-- `handle_client_data`
unfoldable pub handle_client_data : Bool → ClientCtx → ReadResult → Handled
unfolding deliver expect_body
handle_client_data realloc_ok ctx (failed again) = if again then kept ctx [] else closed
handle_client_data realloc_ok ctx (got bytes) =
    let ctx' : ClientCtx = record ctx { buf = ctx.buf ++ bytes } in
    if length ctx'.buf == msg_hdr_size then expect_body realloc_ok ctx' else deliver ctx'

-- `handle_client_data` at each result of `read`, until the client is closed: the messages that were
-- delivered, and the client if it is still open
unfoldable pub serve : (ℕ → Bool) → ClientCtx → List ReadResult → List (List ℕ) × Option ClientCtx
unfolding handle_client_data
serve realloc_ok ctx [] = ([], some ctx)
serve realloc_ok ctx (r ∷ rs) = elim (handle_client_data (realloc_ok (length rs)) ctx r) [
  | closed ↦ ([], none)
  | kept ctx' out ↦ let (ms, end) = serve realloc_ok ctx' rs in (out ++ ms, end)
]
