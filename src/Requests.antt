-- ===== src/Requests.antt =====
-- c-src/main/ps-uif-handler.c: the requests of a client, parsed from the bodies of its messages. The
-- body is the list of its bytes, so `msg->size` is its length; a read behind it is a `fault`, the
-- return value -1 is `fail`. Numbers have their low byte first. A value is the request that is sent
-- to the server; sending it is the business of prof-server-ev.c.
pub mod Bounds
pub mod Layout
mod Tests
use jauto_profiler_mcp.Prelude.{
  ℕ, zero, suc, ◌+◌, ◌-◌, ◌*◌, ◌^◌, Bool, true, false, not, List, [], ◌∷◌, ltb, ◌==◌, if◌then◌else◌,
  length,
}
use jauto_profiler_mcp.Prelude.Checked.{
  Checked, fault, fail, ok, Done, ◌>>=◌, fail_if, read, read_bytes,
}

-- the requests, by the function that sends them
pub data Request : Type 0 where
  loaded_classes get_stats shutdown_request resume pause_threads list_instrumented get_async_errors
        get_status :
      Request
  class_methods : (name : List ℕ) → Request
  instrument_method deinstrument_method : (class_name method_sig : List ℕ) → Request
  deinstrument_by_id : (instrument_id : ℕ) → Request
  instrument_line : (ent_cls exit_cls : List ℕ) (entry_line exit_line : ℕ) → Request

-- the answers of `malloc`
pub record Memory : Type 0 where
  pub first_ok : Bool
  pub second_ok : Bool

-- `memcpy` into a `uint16_t`
pub load_u2 : List ℕ → ℕ → Checked ℕ
load_u2 body p = do a ← read body p; b ← read body (p + 1); ok (a + b * 256)

pub load_u4 : List ℕ → ℕ → Checked ℕ
unfolding load_u2
load_u4 body p = do a ← load_u2 body p; b ← load_u2 body (p + 2); ok (a + b * 2 ^ 16)

pub load_u8 : List ℕ → ℕ → Checked ℕ
unfolding load_u4
load_u8 body p = do a ← load_u4 body p; b ← load_u4 body (p + 4); ok (a + b * 2 ^ 32)

-- `handle_class_methods`
pub handle_class_methods : Memory → List ℕ → Checked Request
unfolding load_u2
handle_class_methods mem body = do
  _ ← fail_if (ltb (length body) 2)
  name_len ← load_u2 body 0
  _ ← fail_if (ltb (length body) (2 + name_len))
  _ ← fail_if (not mem.first_ok)
  name ← read_bytes body 2 name_len
  ok (class_methods name)

-- the common body of `handle_instrument_method` and `handle_deinstrument_method`
pub parse_method : (List ℕ → List ℕ → Request) → Memory → List ℕ → Checked Request
unfolding load_u2
parse_method request mem body = do
  _ ← fail_if (ltb (length body) 2)
  class_len ← load_u2 body 0
  _ ← fail_if (ltb (length body) (2 + class_len + 2))
  sig_len ← load_u2 body (2 + class_len)
  _ ← fail_if (ltb (length body) (2 + class_len + 2 + sig_len))
  _ ← fail_if (not mem.first_ok)
  class_name ← read_bytes body 2 class_len
  _ ← fail_if (not mem.second_ok)
  method_sig ← read_bytes body (2 + class_len + 2) sig_len
  ok (request class_name method_sig)

-- `handle_instrument_method`
pub handle_instrument_method : Memory → List ℕ → Checked Request
unfolding parse_method
handle_instrument_method mem body = parse_method instrument_method mem body

-- `handle_deinstrument_method`
pub handle_deinstrument_method : Memory → List ℕ → Checked Request
unfolding parse_method
handle_deinstrument_method mem body = parse_method deinstrument_method mem body

-- `handle_instrument_line`; the two strings are passed on as they lie in the message
pub handle_instrument_line : List ℕ → Checked Request
unfolding load_u2 load_u4
handle_instrument_line body = do
  _ ← fail_if (ltb (length body) 8)
  _ ← fail_if (ltb (length body - 8) 2)
  ent_size ← load_u2 body 8
  _ ← fail_if (ltb (length body - 8) (2 + ent_size))
  _ ← fail_if (ltb (length body - 8 - (2 + ent_size)) 2)
  exit_size ← load_u2 body (8 + (2 + ent_size))
  _ ← fail_if (ltb (length body - 8 - (2 + ent_size)) (2 + exit_size))
  ent_cls ← read_bytes body 10 ent_size
  exit_cls ← read_bytes body (8 + (2 + ent_size) + 2) exit_size
  entry_line ← load_u4 body 0
  exit_line ← load_u4 body 4
  ok (instrument_line ent_cls exit_cls entry_line exit_line)

-- `handle_deinstrument_by_id`
pub handle_deinstrument_by_id : List ℕ → Checked Request
unfolding load_u8
handle_deinstrument_by_id body = do
  _ ← fail_if (ltb (length body) 8)
  instrument_id ← load_u8 body 0
  ok (deinstrument_by_id instrument_id)

-- `ps_uif_handler`, by the number of the message type
pub ps_uif_handler : Memory → ℕ → List ℕ → Checked Request
unfolding handle_class_methods handle_instrument_method handle_deinstrument_method
    handle_instrument_line handle_deinstrument_by_id
ps_uif_handler mem type body =
    if type == 0
    then ok loaded_classes
    else if type == 2
    then handle_class_methods mem body
    else if type == 4
    then handle_instrument_method mem body
    else if type == 6
    then ok get_stats
    else if type == 8
    then handle_deinstrument_method mem body
    else if type == 10
    then ok shutdown_request
    else if type == 11
    then ok resume
    else if type == 13
    then ok pause_threads
    else if type == 15
    then ok list_instrumented
    else if type == 17
    then ok get_async_errors
    else if type == 19
    then handle_deinstrument_by_id body
    else if type == 21
    then handle_instrument_line body
    else if type == 23
    then ok get_status
    else fail
