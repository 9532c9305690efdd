-- ===== src/ClassInfo/Tests.antt =====
-- class-info.c and class-info-list.c: the theorems on a class with two instruments, and on a class of
-- the same name that is loaded again.
use jauto_profiler_mcp.Prelude.{
  ℕ, ◌*◌, ◌<◌, ◌≡◌, ap, ◌∙◌, ◌⊎◌, Bool, true, false, [], ◌∷◌, Option, none, some, leb, arith, ◌==◌,
  if◌then◌else◌,
}
use jauto_profiler_mcp.HashTab.{Bytes, keycmp}
use jauto_profiler_mcp.HashTab.Put.{empty, empty-IsValid, view-empty}
use jauto_profiler_mcp.HashTab.View.{lookup-view}
use jauto_profiler_mcp.DynArr.{DynArr}
use jauto_profiler_mcp.ClassInfo.{
  ClassInfo, ClassInfoList, CiListAdd, InstrumentedMethod, no_method, no_line, ci_list_add,
  ci_remove_instrumented_by_sig, ci_list_find_by_name,
}
use jauto_profiler_mcp.ClassInfo.Instruments.{FoundFirst, ci_remove_instrumented_by_sig_lem}
use jauto_profiler_mcp.ClassInfo.Adding.{AddedClass, ci_list_add-AddedClass}

-- `f` with profiler 1 and `g` with profiler 2
abbrev methods : DynArr InstrumentedMethod
methods = record {
  len = 2;
  capacity = 4;
  arr = λ i.
      if i == 0
      then record { method_sig = 102 ∷ []; profiler_id = 1; instrument_id = 10 }
      else if i == 1
      then record { method_sig = 103 ∷ []; profiler_id = 2; instrument_id = 11 }
      else no_method;
}

abbrev class_a : ClassInfo
class_a = record {
  name = 65 ∷ [];
  bytecode = 1 ∷ 2 ∷ [];
  loader = none;
  methods = (102 ∷ []) ∷ (103 ∷ []) ∷ [];
  instrumented = methods;
  lines = record { len = 0; capacity = 1; arr = λ i. no_line };
}

ci_remove_instrumented_by_sig_example :
    ((ci_remove_instrumented_by_sig class_a (103 ∷ []) ≡ some (class_a, none))
      × ((j : ℕ) → j < 2 → keycmp (methods.arr j).method_sig (103 ∷ []) ≡ false))
    ⊎ (k : ℕ) × (b : DynArr InstrumentedMethod) × (ci_remove_instrumented_by_sig class_a (103 ∷ [])
        ≡ some (
          record class_a { instrumented = b },
          some ((methods.arr k).profiler_id, (methods.arr k).instrument_id),
        ))
      × FoundFirst (λ (m : InstrumentedMethod). keycmp m.method_sig (103 ∷ [])) methods k b
ci_remove_instrumented_by_sig_example =
    ci_remove_instrumented_by_sig_lem class_a (103 ∷ []) (omega arith, omega arith)

abbrev hash : Bytes → ℕ
hash key = 0

-- a load of three quarters
abbrev over_3_4 : ℕ → ℕ → Bool
over_3_4 c n = leb (3 * n) (4 * c)

-- no class in the list; the class is at the address 8
abbrev classes : ClassInfoList
classes = record { tab = empty 16 hash over_3_4; store = λ a. class_a }

none_yet : ci_list_find_by_name classes (65 ∷ []) ≡ none
unfolding ci_list_find_by_name
none_yet =
    lookup-view classes.tab (65 ∷ [])
    ∙ ap (λ x. elim x as (λ _. Option ℕ) [ none ↦ none | some v ↦ v ])
        (view-empty {V = ℕ} 16 hash over_3_4 (omega arith) (λ c n e. ground arith) (65 ∷ []))

ci_list_add_example :
    (after : ClassInfoList) × (result : CiListAdd) × (ci_list_add true true classes 8
      ≡ some (after, result))
    × AddedClass classes
        (empty-IsValid 16 hash over_3_4 (omega arith) (λ c n e. ground arith))
        8
        true
        true
        after
        result
ci_list_add_example =
    ci_list_add-AddedClass classes
      (empty-IsValid 16 hash over_3_4 (omega arith) (λ c n e. ground arith)) 8 true true
      (λ old e same. cc (e, none_yet))
