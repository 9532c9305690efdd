-- ===== src/Responses.antt =====
-- c-src/main/uif-response.c: the responses with bodies of varying length: the size that is computed
-- before the allocation, and the bytes that are written after it. A string is the list of its bytes,
-- written behind its 16-bit length (`pstring`). `none` stands for the return value -1. Numbers have
-- their low byte first.
pub mod Sizes
pub mod Short
mod Tests
use jauto_profiler_mcp.Prelude.{
  ℕ, zero, suc, ◌+◌, ◌-◌, ◌*◌, ◌/◌, ◌%◌, ◌^◌, Bool, true, false, not, ◌||◌, List, [], ◌∷◌, ◌++◌,
  Option, none, some, ltb, if◌then◌else◌, length,
}
use jauto_profiler_mcp.HashTab.{Bytes}
use jauto_profiler_mcp.ErrLog.{ErrEntry, ErrLog, log_size, drain}
use jauto_profiler_mcp.MasterInstruments.{
  MiEntry, mi_method, mi_line, mi_var_bind, mi_type_is_user_visible,
}

-- `struct user_msg`
pub record UserMsg : Type 0 where
  pub type : ℕ
  pub size : ℕ
  pub body : List ℕ

-- the low `w` bytes of a number
abbrev pub bytes : ℕ → ℕ → List ℕ
bytes zero n = []
bytes (suc w) n = n % 256 ∷ bytes w (n / 256)

-- `pstring_memcpy_to`
pub pstring_bytes : Bytes → List ℕ
pstring_bytes s = bytes 2 (length s) ++ s

-- `pstring_total_size`
pub pstring_total_size : Bytes → ℕ
pstring_total_size s = 2 + length s

-- the two loops over names
pub names_size : List Bytes → ℕ
unfolding pstring_total_size
names_size [] = 0
names_size (s ∷ ss) = pstring_total_size s + names_size ss

pub names_bytes : List Bytes → List ℕ
unfolding pstring_bytes
names_bytes [] = []
names_bytes (s ∷ ss) = pstring_bytes s ++ names_bytes ss

-- the check of the size and the allocation
abbrev pub respond : Bool → ℕ → ℕ → List ℕ → Option UserMsg
respond alloc_ok type body_size body =
    if ltb (2 ^ 32 - 1) body_size
    then none
    else if alloc_ok
    then some (record { type = type; size = body_size; body = body })
    else none

-- `uif_respond_loaded_classes`, over the names of the classes in the order of the iteration
unfoldable pub uif_respond_loaded_classes : Bool → List Bytes → Option UserMsg
unfolding names_size names_bytes
uif_respond_loaded_classes alloc_ok names =
    respond alloc_ok 1 (4 + names_size names) (bytes 4 (length names) ++ names_bytes names)

-- `uif_respond_class_methods`; no methods stand for a class that is not loaded
unfoldable pub uif_respond_class_methods : Bool → Option (List Bytes) → Option UserMsg
unfolding names_size names_bytes
uif_respond_class_methods alloc_ok none = respond alloc_ok 3 8 (bytes 4 1 ++ bytes 4 0)
uif_respond_class_methods alloc_ok (some methods) =
    respond alloc_ok 3 (8 + names_size methods)
      ((bytes 4 0 ++ bytes 4 (length methods)) ++ names_bytes methods)

-- the first loop of `uif_respond_list_instrumented`: 13 bytes of `user_msg_instr_list_entry`, and 8 of
-- `user_msg_instr_list_line_data` for a line
pub instrument_size : MiEntry → ℕ
unfolding pstring_total_size
instrument_size (mi_method c m d) = 13 + pstring_total_size c + pstring_total_size m
instrument_size (mi_line c x l l' d d') = 13 + 8 + pstring_total_size c + pstring_total_size x
instrument_size (mi_var_bind c v l d) = 0

abbrev pub deferred_status : Bool → ℕ
deferred_status d = if d then 1 else 0

-- the second loop
pub instrument_bytes : ℕ → MiEntry → List ℕ
unfolding pstring_bytes
instrument_bytes id (mi_method c m d) =
    ((((bytes 1 0 ++ bytes 4 (deferred_status d)) ++ bytes 8 id) ++ pstring_bytes c)
      ++ pstring_bytes m)
instrument_bytes id (mi_line c x l l' d d') =
    ((((((bytes 1 1 ++ bytes 4 (deferred_status (d || d'))) ++ bytes 8 id) ++ bytes 4 l)
          ++ bytes 4 l')
        ++ pstring_bytes c)
      ++ pstring_bytes x)
instrument_bytes id (mi_var_bind c v l d) = []

pub instruments_size : List (ℕ × MiEntry) → ℕ
unfolding instrument_size
instruments_size [] = 0
instruments_size ((id, e) ∷ es) = instrument_size e + instruments_size es

pub instruments_count : List (ℕ × MiEntry) → ℕ
instruments_count [] = 0
instruments_count ((id, e) ∷ es) =
    (if mi_type_is_user_visible e then 1 else 0) + instruments_count es

pub instruments_bytes : List (ℕ × MiEntry) → List ℕ
unfolding instrument_bytes
instruments_bytes [] = []
instruments_bytes ((id, e) ∷ es) = instrument_bytes id e ++ instruments_bytes es

-- `uif_respond_list_instrumented`, over the ids and entries in the order of the iteration
unfoldable pub uif_respond_list_instrumented : Bool → List (ℕ × MiEntry) → Option UserMsg
unfolding instruments_size instruments_count instruments_bytes
uif_respond_list_instrumented alloc_ok es =
    respond alloc_ok 16 (4 + instruments_size es)
      (bytes 4 (instruments_count es) ++ instruments_bytes es)

-- an entry of the error log; reading a NULL message is a fault, `none`
pub error_bytes : ErrEntry → Option (List ℕ)
unfolding pstring_bytes
error_bytes e = elim e.msg [ none ↦ none | some m ↦ some (bytes 8 e.timestamp ++ pstring_bytes m) ]

pub errors_bytes : List ErrEntry → Option (List ℕ)
unfolding error_bytes
errors_bytes [] = some []
errors_bytes (e ∷ es) = elim (error_bytes e) [
  | none ↦ none
  | some b ↦ elim (errors_bytes es) [ none ↦ none | some bs ↦ some (b ++ bs) ]
]

-- `uif_respond_get_async_errors`, whose `body_size` is a `uint32_t`. A fault at a NULL message has no
-- response here.
unfoldable pub uif_respond_get_async_errors : Bool → ErrLog → Option UserMsg
unfolding errors_bytes
uif_respond_get_async_errors alloc_ok log = elim (log_size log) [
  | none ↦ none
  | some sz ↦ if not alloc_ok then none else elim (errors_bytes (drain (suc log.count) log 0)) [
    | none ↦ none
    | some es ↦ some (record {
      type = 18;
      size = (4 + sz.overhead_size) % 2 ^ 32;
      body = bytes 4 sz.count ++ es;
    })
  ]
]
