-- ===== src/ClassInfo.antt =====
-- c-src/main/class-info.c, class-info.h, class-info-list.c and class-info-list.h: the loaded classes
-- with their instruments, and the list of them by name. A class is an address, and its contents stand
-- in a store, since the table and its callers share it. The methods of a class are the list of their
-- names. Strings are lists of bytes without a zero, and their copies are assumed to succeed.
pub mod Instruments
pub mod Adding
mod Tests
use jauto_profiler_mcp.Prelude.{
  ℕ, zero, suc, ◌+◌, Bool, true, false, not, List, [], ◌∷◌, Option, none, some, ◌>>=◌, ◌==◌,
  if◌then◌else◌, ltb, map,
}
use jauto_profiler_mcp.HashTab.{
  Bytes, HashTab, keycmp, hash_tab_add, hash_tab_lookup, hash_tab_size, hash_tab_entries,
  hash_tab_itr_init,
}
use jauto_profiler_mcp.DynArr.{DynArr, dynarr_init, dynarr_add, dynarr_remove}
use jauto_profiler_mcp.DynArr.Items.{from}
use jauto_profiler_mcp.Queued.{find_from}

-- `struct instrumented_method`
pub record InstrumentedMethod : Type 0 where
  pub method_sig : Bytes
  pub profiler_id : ℕ
  pub instrument_id : ℕ

-- `enum instrument_type`
pub data InstrumentType : Type 0 where
  instrument_enter : InstrumentType
  instrument_exit : InstrumentType

-- `struct instrumented_line`
pub record InstrumentedLine : Type 0 where
  pub line_number : ℕ
  pub profiler_id : ℕ
  pub instrument_id : ℕ
  pub type : InstrumentType

-- `struct class_info`
pub record ClassInfo : Type 0 where
  pub name : Bytes
  pub bytecode : Bytes
  pub loader : Option ℕ
  pub methods : List Bytes
  pub instrumented : DynArr InstrumentedMethod
  pub lines : DynArr InstrumentedLine

abbrev pub no_method : InstrumentedMethod
no_method = record { method_sig = []; profiler_id = 0; instrument_id = 0 }

abbrev pub no_line : InstrumentedLine
no_line = record { line_number = 0; profiler_id = 0; instrument_id = 0; type = instrument_enter }

-- the answers of the allocator in `ci_alloc`
pub record Memory : Type 0 where
  pub copies_ok : Bool
  pub methods_ok : Bool
  pub lines_ok : Bool

-- `ci_alloc`
unfoldable pub ci_alloc : Memory → Bytes → Bytes → List Bytes → Option ℕ → Option ClassInfo
ci_alloc mem name bytecode methods loader = if not mem.copies_ok then none else do
  instrumented ← dynarr_init mem.methods_ok no_method 1
  lines ← dynarr_init mem.lines_ok no_line 1
  some (record {
    name = name;
    bytecode = bytecode;
    loader = loader;
    methods = methods;
    instrumented = instrumented;
    lines = lines;
  })

-- `instrumented_method_list_add_and_init`, with the id that its callers write
unfoldable pub instrumented_method_list_add_and_init :
    Bool → DynArr InstrumentedMethod → Bytes → ℕ → ℕ → Option (DynArr InstrumentedMethod)
instrumented_method_list_add_and_init grow_ok arr method_sig id instrument_id =
    dynarr_add grow_ok arr
      (record { method_sig = method_sig; profiler_id = id; instrument_id = instrument_id })

-- `ci_remove_instrumented_by_sig`: the class, the profiler's id and the instrument's, if it was found
unfoldable pub ci_remove_instrumented_by_sig :
    ClassInfo → Bytes → Option (ClassInfo × Option (ℕ × ℕ))
ci_remove_instrumented_by_sig ci method_sig =
    let list = ci.instrumented in
    elim (find_from (λ m. keycmp m.method_sig method_sig) list.arr 0 list.len) [
      | none ↦ some (ci, none)
      | some i ↦ do
        rest ← dynarr_remove list i
        some (
          record ci { instrumented = rest },
          some ((list.arr i).profiler_id, (list.arr i).instrument_id),
        )
    ]

-- `ci_add_instrumented_line`
unfoldable pub ci_add_instrumented_line :
    Bool → ClassInfo → ℕ → ℕ → ℕ → InstrumentType → Option ClassInfo
ci_add_instrumented_line grow_ok ci line_number profiler_id instrument_id type = do
  lines ← dynarr_add grow_ok ci.lines (record {
    line_number = line_number;
    profiler_id = profiler_id;
    instrument_id = instrument_id;
    type = type;
  })
  some (record ci { lines = lines })

-- `ci_remove_instrumented_line`: the class, and the profiler's id if it was found
unfoldable pub ci_remove_instrumented_line : ClassInfo → ℕ → Option (ClassInfo × Option ℕ)
ci_remove_instrumented_line ci line_number =
    let lines = ci.lines in
    elim (find_from (λ l. l.line_number == line_number) lines.arr 0 lines.len) [
      | none ↦ some (ci, none)
      | some i ↦ do
        rest ← dynarr_remove lines i
        some (record ci { lines = rest }, some (lines.arr i).profiler_id)
    ]

-- an array after `memset` with 0
abbrev pub zeroed : {A : Type 0} → DynArr A → DynArr A
zeroed a = record a { len = 0; capacity = 0 }

-- `ci_steal_instruments`: the classes `dst` and `src` after it
unfoldable pub ci_steal_instruments : ClassInfo → ClassInfo → ClassInfo × ClassInfo
ci_steal_instruments dst src = (
  record dst { instrumented = src.instrumented; lines = src.lines },
  record src { instrumented = zeroed src.instrumented; lines = zeroed src.lines },
)

-- an array of one element, as `prefix_init` makes it
-- `ci_clear_instruments`. The source does not look whether the new arrays could be allocated: if not,
-- it leaves a NULL array with a capacity of 1, for which there is no class here.
unfoldable pub ci_clear_instruments : Bool → Bool → ClassInfo → Option ClassInfo
ci_clear_instruments methods_ok lines_ok ci = do
  instrumented ← dynarr_init methods_ok no_method 1
  lines ← dynarr_init lines_ok no_line 1
  some (record ci { instrumented = instrumented; lines = lines })

-- `struct class_instrument_params`; the lengths are `count` and `line_count`
pub record ClassInstrumentParams : Type 0 where
  pub class_data : Bytes
  pub method_sigs : List Bytes
  pub profiler_ids : List ℕ
  pub line_numbers : List ℕ
  pub line_types : List InstrumentType
  pub line_profiler_ids : List ℕ

-- `class_instrument_params_alloc`, with the answers of `malloc` for the two groups of arrays
unfoldable pub class_instrument_params_alloc :
    Bool → Bool → ClassInfo → Option ClassInstrumentParams
class_instrument_params_alloc methods_ok lines_ok ci =
    let methods = from ci.instrumented.arr 0 ci.instrumented.len in
    let lines = from ci.lines.arr 0 ci.lines.len in
    if not methods_ok
    then none
    else if ltb 0 ci.lines.len
    then if not lines_ok
      then none
      else some (record {
        class_data = ci.bytecode;
        method_sigs = map (λ (m : InstrumentedMethod). m.method_sig) methods;
        profiler_ids = map (λ (m : InstrumentedMethod). m.profiler_id) methods;
        line_numbers = map (λ (l : InstrumentedLine). l.line_number) lines;
        line_types = map (λ (l : InstrumentedLine). l.type) lines;
        line_profiler_ids = map (λ (l : InstrumentedLine). l.profiler_id) lines;
      })
    else some (record {
      class_data = ci.bytecode;
      method_sigs = map (λ (m : InstrumentedMethod). m.method_sig) methods;
      profiler_ids = map (λ (m : InstrumentedMethod). m.profiler_id) methods;
      line_numbers = [];
      line_types = [];
      line_profiler_ids = [];
    })

-- `struct class_info_list`, with the store of the classes
pub record ClassInfoList : Type 0 where
  pub tab : HashTab ℕ
  pub store : ℕ → ClassInfo

abbrev pub write : (ℕ → ClassInfo) → ℕ → ClassInfo → ℕ → ClassInfo
write f a x b = if b == a then x else f b

-- the results of `ci_list_add`
pub data CiListAdd : Type 0 where
  ci_list_add_ok : CiListAdd
  ci_list_add_duplicate : CiListAdd
  ci_list_add_err : CiListAdd

-- `ci_list_add` of the class at the address `ci`; the class that it replaces is freed
unfoldable pub ci_list_add : Bool → Bool → ClassInfoList → ℕ → Option (ClassInfoList × CiListAdd)
unfolding ci_steal_instruments
ci_list_add key_ok tab_ok list ci = do
  r ← hash_tab_add key_ok tab_ok list.tab (list.store ci).name (some ci)
  elim r.2 [
    | some old ↦
        let s = ci_steal_instruments (list.store ci) (list.store old) in
        some (
          record { tab = r.0; store = write (write list.store ci s.0) old s.1 },
          ci_list_add_duplicate,
        )
    | none ↦ some (record list { tab = r.0 }, if r.1 then ci_list_add_ok else ci_list_add_err)
  ]

-- `ci_list_find_by_name`
unfoldable pub ci_list_find_by_name : ClassInfoList → Bytes → Option ℕ
ci_list_find_by_name list name = hash_tab_lookup list.tab name

-- `ci_list_size`
unfoldable pub ci_list_size : ClassInfoList → ℕ
ci_list_size list = hash_tab_size list.tab

-- what repeated calls of `ci_list_iterate` give until NULL
unfoldable pub classes_of : List (Option Bytes × Option ℕ) → List ℕ
classes_of ((key, some ci) ∷ es) = ci ∷ classes_of es
classes_of es = []

-- `while ((ci = ci_list_iterate(list, &itr)) != NULL)` after `ci_list_itr_init`
unfoldable pub ci_list_classes : ClassInfoList → List ℕ
unfolding classes_of
ci_list_classes list =
    classes_of
      (hash_tab_entries (suc (hash_tab_size list.tab)) list.tab (hash_tab_itr_init list.tab))
