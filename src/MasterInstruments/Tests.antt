-- ===== src/MasterInstruments/Tests.antt =====
-- master-instruments.c: the first instrument of an empty registry.
use jauto_profiler_mcp.Prelude.{
  subst, sym, inl, inr, ◌⊎◌, false, ℕ, ◌*◌, ◌≡◌, Bool, true, [], ◌∷◌, none, some, leb, arith,
}
use jauto_profiler_mcp.HashTab.Put.{empty, empty-IsValid, view-empty}
use jauto_profiler_mcp.MasterInstruments.Marks.{IsCleared, mi_mark_applied-IsCleared}
use jauto_profiler_mcp.MasterInstruments.{
  MiEntry, method_mark, mi_mark_applied, mi_method, MasterInstruments, Memory, id_key, mi_id_hash,
  add_entry, mi_remove, mi_find,
}
use jauto_profiler_mcp.MasterInstruments.Registry.{
  IsRegistry, Registered, Elsewhere, add_entry-Registered, mi_remove-IsRegistry,
}

-- a load of three quarters
abbrev over_3_4 : ℕ → ℕ → Bool
over_3_4 c n = leb (3 * n) (4 * c)

abbrev fresh : MasterInstruments
fresh = record { tab = empty 16 mi_id_hash over_3_4; next_id = 1 }

abbrev plenty : Memory
plenty = record { entry_ok = true; key_ok = true; tab_ok = true }

fresh-IsRegistry : IsRegistry fresh
fresh-IsRegistry = record {
  valid = empty-IsValid 16 mi_id_hash over_3_4 (omega arith) (λ c n e. ground arith);
  pos = omega arith;
  in_range = omega arith;
  free = λ id le lt.
      view-empty 16 mi_id_hash over_3_4 (omega arith) (λ c n e. ground arith) (id_key id);
}

add_entry_example :
    (mi' : MasterInstruments) × (id : ℕ) × (add_entry plenty fresh
        (mi_method (65 ∷ []) (109 ∷ []) true)
      ≡ some (mi', id))
    × Registered plenty fresh
        (mi_method (65 ∷ []) (109 ∷ []) true)
        fresh-IsRegistry
        (omega arith)
        mi'
        id
add_entry_example =
    add_entry-Registered plenty fresh (mi_method (65 ∷ []) (109 ∷ []) true) fresh-IsRegistry
      (omega arith)

mi_remove_example :
    (mi' : MasterInstruments) × (mi_remove fresh 7 ≡ some mi')
    × IsRegistry mi'
    × (mi_find mi' 7 ≡ none)
    × Elsewhere fresh 7 mi'
    × (mi'.next_id ≡ fresh.next_id)
mi_remove_example = mi_remove-IsRegistry fresh fresh-IsRegistry 7 (omega arith)

-- a registry after a first instrument of a method
abbrev one_method : MasterInstruments
one_method =
    (add_entry-Registered plenty fresh (mi_method (65 ∷ []) (109 ∷ []) true) fresh-IsRegistry
      (omega arith)).0

one_method-IsRegistry : IsRegistry one_method
one_method-IsRegistry =
    elim (add_entry-Registered plenty fresh (mi_method (65 ∷ []) (109 ∷ []) true) fresh-IsRegistry
      (omega arith)).3 [
        | inl (zero_id, same, why) ↦ subst IsRegistry (sym same) fresh-IsRegistry
        | inr (next_id, registry, before, after, others) ↦ registry
      ]

mi_mark_applied_example :
    (mi_mark_applied method_mark one_method 1 ≡ (one_method, false))
      × ((e e' : MiEntry) → mi_find one_method 1 ≡ some e → ¬ IsCleared method_mark e e')
    ⊎ (mi' : MasterInstruments) × (e e' : MiEntry) × (mi_mark_applied method_mark one_method 1
        ≡ (mi', true))
      × (mi_find one_method 1 ≡ some e)
      × IsCleared method_mark e e'
      × (mi_find mi' 1 ≡ some e')
      × IsRegistry mi'
      × Elsewhere one_method 1 mi'
mi_mark_applied_example =
    mi_mark_applied-IsCleared method_mark one_method one_method-IsRegistry 1 (omega arith)
