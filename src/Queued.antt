-- ===== src/Queued.antt =====
-- c-src/main/queued-instrument.c and queued-instrument.h: the instruments that wait for their class
-- to be loaded, in an array. Strings are lists of bytes without a zero. The copies of the strings
-- are assumed to succeed: the source stores NULL where they do not, which its searches would read.
pub mod Search
mod Tests
use jauto_profiler_mcp.Prelude.{
  ℕ, zero, suc, ◌+◌, Bool, true, false, Option, none, some, ◌==◌, if◌then◌else◌, List,
}
use jauto_profiler_mcp.HashTab.{Bytes, keycmp}
use jauto_profiler_mcp.DynArr.{DynArr, dynarr_add, dynarr_remove}

-- what the union of `struct queued_instr` holds for each `enum qi_type`
pub data QiDetail : Type 0 where
  qi_method : (method_sig : Bytes) → QiDetail
  qi_line_enter qi_line_exit : (line_number : ℕ) → QiDetail
  qi_var_bind : (var_name : Bytes) (line_number : ℕ) → QiDetail

-- `struct queued_instr`; a `profiler_id` of -1 is `none`
pub record QueuedInstr : Type 0 where
  pub instrument_id : ℕ
  pub profiler_id : Option ℕ
  pub class_name : Bytes
  pub detail : QiDetail

abbrev pub QueuedInstrList : Type 0
QueuedInstrList = DynArr QueuedInstr

-- `queued_instr_method_init`
unfoldable pub queued_instr_method_init : Bytes → Bytes → ℕ → ℕ → QueuedInstr
queued_instr_method_init class_name method_sig profiler_id instrument_id = record {
  instrument_id = instrument_id;
  profiler_id = some profiler_id;
  class_name = class_name;
  detail = qi_method method_sig;
}

-- `queued_instr_line_init`; `at_entry` for QI_LINE_ENTER
unfoldable pub queued_instr_line_init : Bytes → ℕ → ℕ → ℕ → Bool → QueuedInstr
queued_instr_line_init class_name line_number profiler_id instrument_id at_entry = record {
  instrument_id = instrument_id;
  profiler_id = some profiler_id;
  class_name = class_name;
  detail = if at_entry then qi_line_enter line_number else qi_line_exit line_number;
}

-- `queued_instr_var_bind_init`
unfoldable pub queued_instr_var_bind_init : Bytes → Bytes → ℕ → ℕ → QueuedInstr
queued_instr_var_bind_init class_name var_name line_number instrument_id = record {
  instrument_id = instrument_id;
  profiler_id = none;
  class_name = class_name;
  detail = qi_var_bind var_name line_number;
}

-- `queued_instr_method_add`; `none` for NULL
unfoldable pub queued_instr_method_add :
    Bool → QueuedInstrList → Bytes → Bytes → ℕ → ℕ → Option QueuedInstrList
unfolding queued_instr_method_init
queued_instr_method_add grow_ok arr class_name method_sig profiler_id instrument_id =
    dynarr_add grow_ok arr
      (queued_instr_method_init class_name method_sig profiler_id instrument_id)

-- `queued_instr_line_add`
unfoldable pub queued_instr_line_add :
    Bool → QueuedInstrList → Bytes → ℕ → ℕ → ℕ → Bool → Option QueuedInstrList
unfolding queued_instr_line_init
queued_instr_line_add grow_ok arr class_name line_number profiler_id instrument_id at_entry =
    dynarr_add grow_ok arr
      (queued_instr_line_init class_name line_number profiler_id instrument_id at_entry)

-- `queued_instr_var_bind_add`
unfoldable pub queued_instr_var_bind_add :
    Bool → QueuedInstrList → Bytes → Bytes → ℕ → ℕ → Option QueuedInstrList
unfolding queued_instr_var_bind_init
queued_instr_var_bind_add grow_ok arr class_name var_name line_number instrument_id =
    dynarr_add grow_ok arr
      (queued_instr_var_bind_init class_name var_name line_number instrument_id)

-- `queued_instr_list_remove_and_destroy`
unfoldable pub queued_instr_list_remove_and_destroy : QueuedInstrList → ℕ → Option QueuedInstrList
queued_instr_list_remove_and_destroy arr index = dynarr_remove arr index

-- the loop of the two searches from index `i`, with `n` elements left; `none` for -1
unfoldable pub find_from : {A : Type 0} → (A → Bool) → (ℕ → A) → ℕ → ℕ → Option ℕ
find_from test f i zero = none
find_from test f i (suc n) =
    let rest = find_from test f (i + 1) n in if test (f i) then some i else rest

-- `queued_instr_list_find_by_class`
unfoldable pub queued_instr_list_find_by_class : QueuedInstrList → Bytes → Option ℕ
unfolding find_from
queued_instr_list_find_by_class arr class_name =
    find_from (λ q. keycmp q.class_name class_name) arr.arr 0 arr.len

-- `queued_instr_list_find_by_instrument_id`
unfoldable pub queued_instr_list_find_by_instrument_id : QueuedInstrList → ℕ → Option ℕ
unfolding find_from
queued_instr_list_find_by_instrument_id arr instrument_id =
    find_from (λ q. q.instrument_id == instrument_id) arr.arr 0 arr.len
