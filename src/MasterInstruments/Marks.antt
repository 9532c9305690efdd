-- ===== src/MasterInstruments/Marks.antt =====
-- master-instruments.c: marking an instrument as applied.
use jauto_profiler_mcp.Prelude.{
  ℕ, ◌^◌, ◌<◌, ◌≡◌, refl, ◌∙◌, sym, ◌≢◌, ◌⊎◌, inl, inr, ap, subst, Bool, true, false, none, some,
  arith, Option-cases, Bool-cases, ltb,
}
use jauto_profiler_mcp.HashTab.{Bytes, HashTab, ent_lookup}
use jauto_profiler_mcp.HashTab.Assign.{assign, assign-IsValid, assign-view}
use jauto_profiler_mcp.HashTab.Links.{keys}
use jauto_profiler_mcp.HashTab.Search.{lookup_from_sound}
use jauto_profiler_mcp.HashTab.Valid.{lookup_slot, lookup_no_slot}
use jauto_profiler_mcp.HashTab.Probe.{keycmp_refl}
use jauto_profiler_mcp.MasterInstruments.{
  MiEntry, mi_method, mi_line, mi_var_bind, method_mark, line_entry_mark, line_exit_mark,
  var_bind_mark, MasterInstruments, Mark, id_key, marked, mi_mark_applied, mi_find,
}
use jauto_profiler_mcp.MasterInstruments.Keys.{keycmp-id_key}
use jauto_profiler_mcp.MasterInstruments.Registry.{
  IsRegistry, Elsewhere, find-view, find_some, find_none,
}

slot_held : (t : HashTab MiEntry) (k : Bytes) (i : ℕ) → ent_lookup t k ≡ some i → keys t i ≡ some k
unfolding ent_lookup
slot_held t k i at = lookup_from_sound t.tab t.capacity k t.capacity _ i at

find_slot :
    (mi : MasterInstruments) (id i : ℕ)
    → ent_lookup mi.tab (id_key id) ≡ some i
    → mi_find mi id ≡ (mi.tab.tab i).val
unfolding mi_find
find_slot mi id i at = lookup_slot mi.tab (id_key id) i at

find_no_slot :
    (mi : MasterInstruments) (id : ℕ) → ent_lookup mi.tab (id_key id) ≡ none → mi_find mi id ≡ none
unfolding mi_find
find_no_slot mi id at = lookup_no_slot mi.tab (id_key id) at

module _ (mark : Mark) (mi : MasterInstruments) (ok : IsRegistry mi) (id : ℕ)
    (lt : id < 2 ^ 64) where
  assigned :
      (i : ℕ) (e e' : MiEntry)
      → keys mi.tab i ≡ some (id_key id)
      → mi_find mi id ≡ some e
      → let mi' : MasterInstruments = record mi { tab = assign mi.tab i (some e') } in
        IsRegistry mi' × (mi_find mi' id ≡ some e') × Elsewhere mi id mi'
  assigned i e e' at is =
      let below : id < mi.next_id = elim (Bool-cases (ltb id mi.next_id)) [
        | inl b ↦ ground arith
        | inr b ↦ let gone = find_none mi id (ok.free id (ground arith) lt) in absurd cc
      ] in
      let mi' : MasterInstruments = record mi { tab = assign mi.tab i (some e') } in
      let view_is = assign-view mi.tab ok.valid i (some e') (id_key id) at in
      let other = λ (j : ℕ) (l : j < 2 ^ 64) (ne : j ≢ id).
        view_is (id_key j) ∙ rw (keycmp-id_key id j lt l (λ same. ne (sym same))) refl in
      (
        record {
          valid = assign-IsValid mi.tab i (some e') ok.valid;
          pos = ok.pos;
          in_range = ok.in_range;
          free = λ j le l. other j l (λ same. omega (arith, same)) ∙ ok.free j le l;
        },
        find_some mi' id e' (view_is (id_key id) ∙ rw (keycmp_refl (id_key id)) refl),
        λ j l ne. find-view mi mi' j (other j l ne),
      )

  -- Marking in terms of what `marked` makes of an entry.
  pub mi_mark_applied_lem :
      (mi_mark_applied mark mi id ≡ (mi, false))
        × ((mi_find mi id ≡ none)
            ⊎ (e : MiEntry) × (mi_find mi id ≡ some e) × (marked mark e ≡ none))
      ⊎ (mi' : MasterInstruments) × (e e' : MiEntry) × (mi_mark_applied mark mi id ≡ (mi', true))
        × (mi_find mi id ≡ some e)
        × (marked mark e ≡ some e')
        × (mi_find mi' id ≡ some e')
        × IsRegistry mi'
        × Elsewhere mi id mi'
  unfolding mi_mark_applied
  mi_mark_applied_lem = elim (Option-cases (ent_lookup mi.tab (id_key id))) [
    | inl e ↦ inl (rw (e, mi_mark_applied) refl, inl (find_no_slot mi id e))
    | inr (i, at) ↦ elim (Option-cases (mi.tab.tab i).val) [
      | inl v ↦ inl (rw (at, mi_mark_applied) (rw v refl), inl (find_slot mi id i at ∙ v))
      | inr (e, v) ↦ elim (Option-cases (marked mark e)) [
        | inl m ↦
            inl (rw (at, mi_mark_applied) (rw v (rw m refl)), inr (e, find_slot mi id i at ∙ v, m))
        | inr (e', m) ↦
            let held = slot_held mi.tab (id_key id) i at in
            let (reg, found, others) = assigned i e e' held (find_slot mi id i at ∙ v) in
            inr (
              record mi { tab = assign mi.tab i (some e') },
              e,
              e',
              rw (at, mi_mark_applied) (rw v (rw m refl)),
              find_slot mi id i at ∙ v,
              m,
              found,
              reg,
              others,
            )
      ]
    ]
  ]

-- A mark is for one type of instrument, and clears one flag of it: that of a method, of the entry or
-- of the exit of a line, or of a variable.
abbrev pub IsCleared : Mark → MiEntry → MiEntry → Type 0
IsCleared mark e e' =
    (mark ≡ method_mark)
      × ((c m : Bytes) × (d : Bool) × (e ≡ mi_method c m d) × (e' ≡ mi_method c m false))
    ⊎ ((mark ≡ line_entry_mark)
          × ((c x : Bytes) × (a b : ℕ) × (d f : Bool) × (e ≡ mi_line c x a b d f)
              × (e' ≡ mi_line c x a b false f))
        ⊎ ((mark ≡ line_exit_mark)
              × ((c x : Bytes) × (a b : ℕ) × (d f : Bool) × (e ≡ mi_line c x a b d f)
                  × (e' ≡ mi_line c x a b d false))
            ⊎ (mark ≡ var_bind_mark)
              × ((c v : Bytes) × (l : ℕ) × (d : Bool) × (e ≡ mi_var_bind c v l d)
                  × (e' ≡ mi_var_bind c v l false))))

one : (e f : MiEntry) → some e ≡ some f → f ≡ e
one e f is = cc

marked-IsCleared : (mark : Mark) (e e' : MiEntry) → marked mark e ≡ some e' → IsCleared mark e e'
unfolding marked
marked-IsCleared method_mark (mi_method c m d) e' is = inl (refl, (c, m, d, refl, one _ _ is))
marked-IsCleared line_entry_mark (mi_line c x a b d f) e' is =
    inr (inl (refl, (c, x, a, b, d, f, refl, one _ _ is)))
marked-IsCleared line_exit_mark (mi_line c x a b d f) e' is =
    inr (inr (inl (refl, (c, x, a, b, d, f, refl, one _ _ is))))
marked-IsCleared var_bind_mark (mi_var_bind c v l d) e' is =
    inr (inr (inr (refl, (c, v, l, d, refl, one _ _ is))))
marked-IsCleared mark e e' is = cc

not-IsCleared : (mark : Mark) (e e' : MiEntry) → marked mark e ≡ none → ¬ IsCleared mark e e'
unfolding marked
not-IsCleared mark e e' gone (inl (mark_is, (c, m, d, is, is'))) =
    let bad : some (mi_method c m false) ≡ none =
      ap (λ mk. marked mk (mi_method c m d)) (sym mark_is) ∙ ap (marked mark) (sym is) ∙ gone in
    cc
not-IsCleared mark e e' gone (inr (inl (mark_is, (c, x, a, b, d, f, is, is')))) =
    let bad : some (mi_line c x a b false f) ≡ none =
      ap (λ mk. marked mk (mi_line c x a b d f)) (sym mark_is) ∙ ap (marked mark) (sym is) ∙ gone in
    cc
not-IsCleared mark e e' gone (inr (inr (inl (mark_is, (c, x, a, b, d, f, is, is'))))) =
    let bad : some (mi_line c x a b d false) ≡ none =
      ap (λ mk. marked mk (mi_line c x a b d f)) (sym mark_is) ∙ ap (marked mark) (sym is) ∙ gone in
    cc
not-IsCleared mark e e' gone (inr (inr (inr (mark_is, (c, v, l, d, is, is'))))) =
    let bad : some (mi_var_bind c v l false) ≡ none =
      ap (λ mk. marked mk (mi_var_bind c v l d)) (sym mark_is) ∙ ap (marked mark) (sym is) ∙ gone in
    cc

-- Marking an instrument as applied fails and changes nothing exactly if no instrument of the mark's
-- type is found under the id. Otherwise the instrument is found under it with the mark's flag cleared
-- and nothing else changed, every other id finds what it found, and the registry is in order.
pub mi_mark_applied-IsCleared :
    (mark : Mark) (mi : MasterInstruments)
    → IsRegistry mi
    → (id : ℕ) → id < 2 ^ 64
    → (mi_mark_applied mark mi id ≡ (mi, false))
        × ((e e' : MiEntry) → mi_find mi id ≡ some e → ¬ IsCleared mark e e')
      ⊎ (mi' : MasterInstruments) × (e e' : MiEntry) × (mi_mark_applied mark mi id ≡ (mi', true))
        × (mi_find mi id ≡ some e)
        × IsCleared mark e e'
        × (mi_find mi' id ≡ some e')
        × IsRegistry mi'
        × Elsewhere mi id mi'
mi_mark_applied-IsCleared mark mi ok id lt = elim (mi_mark_applied_lem mark mi ok id lt) [
  | inl (run, inl gone) ↦ inl (run, λ e e' there. absurd (cc))
  | inl (run, inr (f, was, not_to)) ↦ inl (
    run,
    λ e e' there c.
        let same : f ≡ e = one e f (sym there ∙ was) in
        not-IsCleared mark f e' not_to (subst (λ x. IsCleared mark x e') (sym same) c),
  )
  | inr (mi', e, e', run, was, to, is, reg, others) ↦
      inr (mi', e, e', run, was, marked-IsCleared mark e e' to, is, reg, others)
]
