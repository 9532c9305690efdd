-- ===== src/Responses/Sizes.antt =====
-- uif-response.c: the size in the header of a response against the bytes of its body.
use native.Mathlib.Nat.{mod-eq_of_lt}
use jauto_profiler_mcp.Prelude.{
  ℕ, suc, ◌+◌, ◌*◌, ◌%◌, ◌^◌, ◌<◌, ◌≡◌, refl, ap, ◌∙◌, Bool, true, ◌||◌, List, [], ◌∷◌, ◌++◌,
  Option, none, some, length, length-append, arith,
}
use jauto_profiler_mcp.HashTab.{Bytes}
use jauto_profiler_mcp.ErrLog.{ErrEntry, ErrLog}
use jauto_profiler_mcp.ErrLog.Contents.{contents, length-contents}
use jauto_profiler_mcp.ErrLog.Reads.{drain-contents, log_size-contents, msg_bytes, HasMessages}
use jauto_profiler_mcp.MasterInstruments.{MiEntry, mi_method, mi_line, mi_var_bind}
use jauto_profiler_mcp.Responses.{
  UserMsg, bytes, pstring_bytes, pstring_total_size, names_size, names_bytes, respond,
  uif_respond_loaded_classes, uif_respond_class_methods, instrument_size, instrument_bytes,
  deferred_status, instruments_size, instruments_bytes, uif_respond_list_instrumented, error_bytes,
  errors_bytes, uif_respond_get_async_errors,
}

length-pstring_bytes : (s : Bytes) → length (pstring_bytes s) ≡ pstring_total_size s
unfolding pstring_bytes pstring_total_size
length-pstring_bytes s = omega arith

length-names_bytes : (ss : List Bytes) → length (names_bytes ss) ≡ names_size ss
unfolding names_bytes names_size
length-names_bytes [] = refl
length-names_bytes (s ∷ ss) = omega (
  arith,
  length-append (pstring_bytes s) (names_bytes ss),
  length-pstring_bytes s,
  length-names_bytes ss,
)

length-instrument_bytes :
    (id : ℕ) (e : MiEntry) → length (instrument_bytes id e) ≡ instrument_size e
unfolding instrument_bytes instrument_size
length-instrument_bytes id (mi_method c m d) = omega (
  arith,
  length-append (((bytes 1 0 ++ bytes 4 (deferred_status d)) ++ bytes 8 id) ++ pstring_bytes c)
      (pstring_bytes m),
  length-append ((bytes 1 0 ++ bytes 4 (deferred_status d)) ++ bytes 8 id) (pstring_bytes c),
  length-pstring_bytes c,
  length-pstring_bytes m,
)
length-instrument_bytes id (mi_line c x l l' d d') = omega (
  arith,
  length-append
      (((((bytes 1 1 ++ bytes 4 (deferred_status (d || d'))) ++ bytes 8 id) ++ bytes 4 l)
          ++ bytes 4 l')
        ++ pstring_bytes c)
      (pstring_bytes x),
  length-append
      ((((bytes 1 1 ++ bytes 4 (deferred_status (d || d'))) ++ bytes 8 id) ++ bytes 4 l)
        ++ bytes 4 l')
      (pstring_bytes c),
  length-pstring_bytes c,
  length-pstring_bytes x,
)
length-instrument_bytes id (mi_var_bind c v l d) = refl

length-instruments_bytes :
    (es : List (ℕ × MiEntry)) → length (instruments_bytes es) ≡ instruments_size es
unfolding instruments_bytes instruments_size
length-instruments_bytes [] = refl
length-instruments_bytes ((id, e) ∷ es) = omega (
  arith,
  length-append (instrument_bytes id e) (instruments_bytes es),
  length-instrument_bytes id e,
  length-instruments_bytes es,
)

respond_size :
    (alloc_ok : Bool) (type n : ℕ) (body : List ℕ) (m : UserMsg)
    → length body ≡ n
    → respond alloc_ok type n body ≡ some m
    → m.size ≡ length m.body
respond_size alloc_ok type n body m e run = ground arith

-- If `uif_respond_list_instrumented` sends a response, its header announces as many bytes as the
-- body has, whatever mixture of methods, lines and hidden instruments is listed.
pub list_instrumented_size :
    (alloc_ok : Bool) (es : List (ℕ × MiEntry)) (m : UserMsg)
    → uif_respond_list_instrumented alloc_ok es ≡ some m
    → m.size ≡ length m.body
unfolding uif_respond_list_instrumented
list_instrumented_size alloc_ok es m run =
    respond_size alloc_ok 16 _ _ m (omega (arith, length-instruments_bytes es)) run

-- If `uif_respond_loaded_classes` sends a response, its header announces as many bytes as the body
-- has.
pub loaded_classes_size :
    (alloc_ok : Bool) (names : List Bytes) (m : UserMsg)
    → uif_respond_loaded_classes alloc_ok names ≡ some m
    → m.size ≡ length m.body
unfolding uif_respond_loaded_classes
loaded_classes_size alloc_ok names m run =
    respond_size alloc_ok 1 _ _ m (omega (arith, length-names_bytes names)) run

-- If `uif_respond_class_methods` sends a response, its header announces as many bytes as the body
-- has, for a class that is loaded and for one that is not.
pub class_methods_size :
    (alloc_ok : Bool) (methods : Option (List Bytes)) (m : UserMsg)
    → uif_respond_class_methods alloc_ok methods ≡ some m
    → m.size ≡ length m.body
unfolding uif_respond_class_methods
class_methods_size alloc_ok none m run =
    respond_size alloc_ok 3 8 (bytes 4 1 ++ bytes 4 0) m refl run
class_methods_size alloc_ok (some ss) m run =
    respond_size alloc_ok 3 _ _ m (omega (arith, length-names_bytes ss)) run

-- the bytes of errors that have messages
errors_bytes_lem :
    (es : List ErrEntry)
    → HasMessages es
    → (bs : List ℕ) × (errors_bytes es ≡ some bs) × (length bs ≡ msg_bytes es + 10 * length es)
unfolding errors_bytes error_bytes pstring_bytes
errors_bytes_lem [] h = ([], refl, refl)
errors_bytes_lem (e ∷ es) ((m, is), h) =
    let (bs, made, long) = errors_bytes_lem es h in
    (
      (bytes 8 e.timestamp ++ pstring_bytes m) ++ bs,
      rw is (rw made refl),
      rw is (ground (arith, length-append (bytes 8 e.timestamp ++ pstring_bytes m) bs, long)),
    )

-- For a log whose entries have messages, which take less than 2 ^ 32 bytes on the wire, and memory for
-- the response, `uif_respond_get_async_errors` fails no read and sends a response. It announces as many
-- bytes as its body has.
pub async_errors_size :
    (log : ErrLog)
    → HasMessages (contents log)
    → 4 + msg_bytes (contents log) + 10 * log.count < 2 ^ 32
    → (m : UserMsg) × (uif_respond_get_async_errors true log ≡ some m)
      × (m.size ≡ length m.body)
      × (m.size ≡ 4 + msg_bytes (contents log) + 10 * log.count)
unfolding uif_respond_get_async_errors
async_errors_size log has fits =
    let (bs, made, long) = errors_bytes_lem (contents log) has in
    let drained = ap errors_bytes (drain-contents log (suc log.count) (omega arith)) ∙ made in
    let total = 4 + msg_bytes (contents log) + 10 * log.count in
    let same : 4 + (msg_bytes (contents log) + 10 * log.count) ≡ total = omega arith in
    let size_is = ap (λ x. x % 2 ^ 32) same ∙ mod-eq_of_lt fits in
    (
      record {
        type = 18;
        size = (4 + (msg_bytes (contents log) + 10 * log.count)) % 2 ^ 32;
        body = bytes 4 log.count ++ bs;
      },
      rw (log_size-contents log has, uif_respond_get_async_errors) (rw drained refl),
      size_is ∙ omega (arith, long, length-contents log),
      size_is,
    )
