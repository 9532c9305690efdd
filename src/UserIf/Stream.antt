-- ===== src/UserIf/Stream.antt =====
-- user-if.c: a client's whole stream, read by read.
use jauto_profiler_mcp.Prelude.{
  ℕ, ◌≡◌, refl, ap, ◌∙◌, sym, Bool, true, false, List, [], ◌∷◌, ◌++◌, Option, none, some, length,
  append_assoc, append-nil, subst,
}
use jauto_profiler_mcp.Prelude.Checked.{Done, done}
use jauto_profiler_mcp.UserIf.{
  ClientCtx, ReadResult, failed, got, Handled, closed, kept, handle_client_data, serve,
}
use jauto_profiler_mcp.UserIf.Framing.{Frames, concat, IsValid, Cut, Answers, got-Cut}

-- the bytes that were read
abbrev pub stream : List ReadResult → List ℕ
stream [] = []
stream (failed again ∷ rs) = stream rs
stream (got bytes ∷ rs) = bytes ++ stream rs

-- every result of `read` answers the request that was made
unfoldable pub Obeys : (ℕ → Bool) → ClientCtx → List ReadResult → Type 0
unfolding handle_client_data
Obeys realloc_ok ctx [] = Done
Obeys realloc_ok ctx (r ∷ rs) =
    Answers ctx r × (elim (handle_client_data (realloc_ok (length rs)) ctx r) [
      | closed ↦ Done
      | kept ctx' out ↦ Obeys realloc_ok ctx' rs
    ])

-- the messages and the end of a client, against the bytes `b`
abbrev pub Served : List ℕ → List (List ℕ) × Option ClientCtx → Type 0
Served b (ms, none) = Frames ms × (rest : List ℕ) × (concat ms ++ rest ≡ b)
Served b (ms, some ctx) = Frames ms × (concat ms ++ ctx.buf ≡ b) × IsValid ctx

Frames-append : (xs ys : List (List ℕ)) → Frames xs → Frames ys → Frames (xs ++ ys)
Frames-append [] ys hx hy = hy
Frames-append (x ∷ xs) ys (h, hx) hy = (h, Frames-append xs ys hx hy)

concat-append : (xs ys : List (List ℕ)) → concat (xs ++ ys) ≡ concat xs ++ concat ys
concat-append [] ys = refl
concat-append (x ∷ xs) ys =
    ap (λ r. x ++ r) (concat-append xs ys) ∙ sym (append_assoc x (concat xs) (concat ys))

joined :
    (b b' rest : List ℕ) (out ms : List (List ℕ)) (left : List ℕ)
    → concat out ++ b' ≡ b
    → concat ms ++ left ≡ b' ++ rest
    → concat (out ++ ms) ++ left ≡ b ++ rest
joined b b' rest out ms left e es =
    ap (λ x. x ++ left) (concat-append out ms)
    ∙ append_assoc (concat out) (concat ms) left
    ∙ ap (λ x. concat out ++ x) es
    ∙ sym (append_assoc (concat out) b' rest)
    ∙ ap (λ x. x ++ rest) e

Served-after :
    (b b' rest : List ℕ) (out : List (List ℕ)) (p : List (List ℕ) × Option ClientCtx)
    → Frames out
    → concat out ++ b' ≡ b
    → Served (b' ++ rest) p
    → Served (b ++ rest) (out ++ p.0, p.1)
Served-after b b' rest out (ms, none) f e (fs, left, es) =
    (Frames-append out ms f fs, left, joined b b' rest out ms left e es)
Served-after b b' rest out (ms, some ctx) f e (fs, es, v) =
    (Frames-append out ms f fs, joined b b' rest out ms ctx.buf e es, v)

closed_at : (b rest : List ℕ) → Served (b ++ rest) ([], none)
closed_at b rest = (done, b ++ rest, refl)

serve_got :
    (realloc_ok : ℕ → Bool) (rs : List ReadResult) (b : List ℕ) (ok : Bool) (h : Handled)
    → Cut ok b h
    → (elim h as (λ x. Type 0) [ closed ↦ Done | kept ctx' out ↦ Obeys realloc_ok ctx' rs ])
    → ((ctx' : ClientCtx)
        → IsValid ctx'
        → Obeys realloc_ok ctx' rs
        → Served (ctx'.buf ++ stream rs) (serve realloc_ok ctx' rs))
    → Served (b ++ stream rs) (elim h [
      | closed ↦ ([], none)
      | kept ctx' out ↦ let (ms, end) = serve realloc_ok ctx' rs in (out ++ ms, end)
    ])
serve_got realloc_ok rs b ok closed c obeys rest = closed_at b (stream rs)
serve_got realloc_ok rs b ok (kept ctx' out) (v, fs, e) obeys rest =
    Served-after b ctx'.buf (stream rs) out (serve realloc_ok ctx' rs) fs e (rest ctx' v obeys)

-- Reading from a client, in whatever pieces the bytes come: the messages delivered are, one after
-- the other, the bytes that were read, each a header with the whole body that it announces and none
-- larger than 1 MiB. A client that is still open has the bytes behind the last message in its
-- buffer, a part of one message, and asks for no more bytes than its buffer has room for. The
-- theorem starts at a client whose buffer holds a part of a message, as a new one does, and assumes
-- that `read` returns at least one byte and no more than were asked for.
pub serve-Served :
    (realloc_ok : ℕ → Bool) (rs : List ReadResult) (ctx : ClientCtx)
    → IsValid ctx
    → Obeys realloc_ok ctx rs
    → Served (ctx.buf ++ stream rs) (serve realloc_ok ctx rs)
unfolding serve Obeys
serve-Served realloc_ok [] ctx v obeys = (done, sym (append-nil ctx.buf), v)
serve-Served realloc_ok (failed true ∷ rs) ctx v obeys = serve-Served realloc_ok rs ctx v obeys.1
serve-Served realloc_ok (failed false ∷ rs) ctx v obeys = closed_at ctx.buf (stream rs)
serve-Served realloc_ok (got bytes ∷ rs) ctx v obeys =
    subst (λ b. Served b (serve realloc_ok ctx (got bytes ∷ rs)))
      (append_assoc ctx.buf bytes (stream rs))
      (serve_got realloc_ok rs (ctx.buf ++ bytes) (realloc_ok (length rs))
        (handle_client_data (realloc_ok (length rs)) ctx (got bytes))
        (got-Cut (realloc_ok (length rs)) ctx bytes v obeys.0.0 obeys.0.1) obeys.1
        (λ ctx' v' o. serve-Served realloc_ok rs ctx' v' o))
