-- ===== src/MasterInstruments/Registry.antt =====
-- master-instruments.c: adding, finding and removing instruments.
use native.Mathlib.Nat.{mod-eq_of_lt}
use jauto_profiler_mcp.Prelude.{
  ℕ, ◌+◌, ◌^◌, ◌≤◌, ◌<◌, ◌≡◌, refl, ap, ◌∙◌, sym, ◌≢◌, ◌⊎◌, inl, inr, Bool, true, false, Option,
  none, some, arith, Bool-cases, subst, ltb,
}
use jauto_profiler_mcp.HashTab.{HashTab, keycmp, hash_tab_add, hash_tab_remove}
use jauto_profiler_mcp.HashTab.Valid.{IsValid}
use jauto_profiler_mcp.HashTab.View.{view, updated, lookup-view}
use jauto_profiler_mcp.HashTab.Probe.{keycmp_refl}
use jauto_profiler_mcp.HashTab.Map.{hash_tab_add-Outcome, Added, Outcome}
use jauto_profiler_mcp.HashTab.Delete.{hash_tab_remove-Without}
use jauto_profiler_mcp.MasterInstruments.{
  MiEntry, MasterInstruments, Memory, id_key, mi_insert, add_entry, mi_find, mi_remove,
}
use jauto_profiler_mcp.MasterInstruments.Keys.{keycmp-id_key}

-- The table is in order, 0 is no id, and the ids from `next_id` on are free.
pub record IsRegistry (mi : MasterInstruments) : Type 0 where
  pub valid : IsValid mi.tab
  pub pos : 0 < mi.next_id
  pub in_range : mi.next_id < 2 ^ 64
  pub free : (id : ℕ) → mi.next_id ≤ id → id < 2 ^ 64 → view mi.tab (id_key id) ≡ none

-- the other ids find what they found
abbrev pub Elsewhere : MasterInstruments → ℕ → MasterInstruments → Type 0
Elsewhere mi id mi' = (i : ℕ) → i < 2 ^ 64 → i ≢ id → mi_find mi' i ≡ mi_find mi i

-- Tables that agree on a key find the same under it.
pub find-view :
    (mi mi' : MasterInstruments) (i : ℕ)
    → view mi'.tab (id_key i) ≡ view mi.tab (id_key i)
    → mi_find mi' i ≡ mi_find mi i
unfolding mi_find
find-view mi mi' i e = ground (arith, lookup-view mi'.tab (id_key i), lookup-view mi.tab (id_key i))

pub find_some :
    (mi : MasterInstruments) (i : ℕ) (e : MiEntry)
    → view mi.tab (id_key i) ≡ some (some e)
    → mi_find mi i ≡ some e
unfolding mi_find
find_some mi i e h = ground (arith, lookup-view mi.tab (id_key i))

pub find_none :
    (mi : MasterInstruments) (i : ℕ) → view mi.tab (id_key i) ≡ none → mi_find mi i ≡ none
unfolding mi_find
find_none mi i h = ground (arith, lookup-view mi.tab (id_key i))

module _ (mem : Memory) (mi : MasterInstruments) (e : MiEntry) (ok : IsRegistry mi)
    (last : mi.next_id + 1 < 2 ^ 64) where
  -- a new id with the entry, or nothing
  abbrev pub Registered : MasterInstruments → ℕ → Type 0
  Registered mi' id =
      (id ≡ 0) × (mi' ≡ mi) × ((mem.entry_ok ≡ false) ⊎ (mem.key_ok ≡ false) ⊎ (mem.tab_ok ≡ false))
      ⊎ (id ≡ mi.next_id)
        × IsRegistry mi'
        × (mi_find mi id ≡ none)
        × (mi_find mi' id ≡ some e)
        × Elsewhere mi id mi'

  next : HashTab MiEntry → MasterInstruments
  next t = record { tab = t; next_id = mi.next_id + 1 }

  module _ (t : HashTab MiEntry) (prev : Option MiEntry)
      (a : Added mi.tab (id_key mi.next_id) (some e) t prev) where
    view_self : view t (id_key mi.next_id) ≡ some (some e)
    view_self = a.view_is (id_key mi.next_id) ∙ rw (keycmp_refl (id_key mi.next_id)) refl

    view_other : (i : ℕ) → i < 2 ^ 64 → i ≢ mi.next_id → view t (id_key i) ≡ view mi.tab (id_key i)
    view_other i lt ne =
        a.view_is (id_key i)
        ∙ rw (keycmp-id_key mi.next_id i ok.in_range lt (λ same. ne (sym same))) refl

    next-IsRegistry : IsRegistry (next t)
    unfolding next
    next-IsRegistry = record {
      valid = a.valid;
      pos = omega arith;
      in_range = last;
      free = λ id le lt. view_other id lt (omega arith) ∙ ok.free id (omega arith) lt;
    }

    next-Registered : Registered (next t) mi.next_id
    unfolding next
    next-Registered = inr (
      refl,
      next-IsRegistry,
      find_none mi mi.next_id (ok.free mi.next_id (omega arith) ok.in_range),
      find_some (next t) mi.next_id e view_self,
      λ i lt ne. find-view mi (next t) i (view_other i lt ne),
    )

  abbrev Runs : Type 0
  Runs =
      (mi' : MasterInstruments) × (id : ℕ) × (add_entry mem mi e ≡ some (mi', id))
      × Registered mi' id

  insert_fails :
      mem.entry_ok ≡ true
      → (t : HashTab MiEntry) (prev : Option MiEntry)
      → hash_tab_add mem.key_ok mem.tab_ok mi.tab (id_key mi.next_id) (some e)
        ≡ some (t, false, prev)
      → t ≡ mi.tab
      → add_entry mem mi e ≡ some (mi, 0)
  unfolding add_entry mi_insert
  insert_fails good t prev run same =
      rw good (rw run (ap (λ x. some (record { tab = x; next_id = mi.next_id }, 0)) same))

  insert_succeeds :
      mem.entry_ok ≡ true
      → (t : HashTab MiEntry) (prev : Option MiEntry)
      → hash_tab_add mem.key_ok mem.tab_ok mi.tab (id_key mi.next_id) (some e)
        ≡ some (t, true, prev)
      → add_entry mem mi e ≡ some (next t, mi.next_id)
  unfolding add_entry mi_insert next
  insert_succeeds good t prev run =
      rw good
        (rw run (ap (λ n. some (record { tab = t; next_id = n }, mi.next_id)) (mod-eq_of_lt last)))

  no_memory : mem.entry_ok ≡ false → add_entry mem mi e ≡ some (mi, 0)
  unfolding add_entry
  no_memory bad = rw (bad, add_entry)

  -- Adding an instrument to a registry fails no assertion. Either an allocation fails, and then the
  -- result is the id 0 and the registry is as it was, or the result is an id under which nothing
  -- was found before and the instrument is found now, every other id finds what it found, and the
  -- counter has passed the id, so that it is not given again. Before the last of the 2 ^ 64 ids.
  pub add_entry-Registered :
      (mi' : MasterInstruments) × (id : ℕ) × (add_entry mem mi e ≡ some (mi', id))
      × Registered mi' id
  add_entry-Registered = elim (Bool-cases mem.entry_ok) [
    | inr bad ↦ (mi, 0, no_memory bad, inl (refl, refl, inl bad))
    | inl good ↦
        let (t, d, prev, run, out) =
          hash_tab_add-Outcome mi.tab ok.valid (id_key mi.next_id) (some e) mem.key_ok mem.tab_ok in
        from_outcome good t d prev run out
  ]
    where
      from_outcome :
          mem.entry_ok ≡ true
          → (t : HashTab MiEntry) (d : Bool) (prev : Option MiEntry)
          → hash_tab_add mem.key_ok mem.tab_ok mi.tab (id_key mi.next_id) (some e)
            ≡ some (t, d, prev)
          → Outcome mi.tab ok.valid (id_key mi.next_id) (some e) mem.key_ok mem.tab_ok t d prev
          → Runs
      from_outcome good t d prev run (inl (failed, same, is, why)) = (
        mi,
        0,
        insert_fails good t prev
            (subst
              (λ x.
                hash_tab_add mem.key_ok mem.tab_ok mi.tab (id_key mi.next_id) (some e)
                ≡ some (t, x, prev))
              failed run)
            same,
        inl (refl, refl, elim why [ inl k ↦ inr (inl k) | inr (b, n) ↦ inr (inr b) ]),
      )
      from_outcome good t d prev run (inr (done, a)) = (
        next t,
        mi.next_id,
        insert_succeeds good t prev (
            subst
              (λ x.
                hash_tab_add mem.key_ok mem.tab_ok mi.tab (id_key mi.next_id) (some e)
                ≡ some (t, x, prev))
              done run),
        next-Registered t prev a,
      )

module _ (mi : MasterInstruments) (ok : IsRegistry mi) (id : ℕ) (lt : id < 2 ^ 64) where
  remove_runs :
      (t : HashTab MiEntry) (prev : Option MiEntry)
      → hash_tab_remove mi.tab (id_key id) ≡ some (t, prev)
      → mi_remove mi id ≡ some (record mi { tab = t })
  unfolding mi_remove
  remove_runs t prev run = rw run refl

  -- Removing an instrument fails no assertion. Then nothing is found under its id, every other id
  -- finds what it found, and the registry is in order. It gives the removed id to no other.
  pub mi_remove-IsRegistry :
      (mi' : MasterInstruments) × (mi_remove mi id ≡ some mi')
      × IsRegistry mi'
      × (mi_find mi' id ≡ none)
      × Elsewhere mi id mi'
      × (mi'.next_id ≡ mi.next_id)
  mi_remove-IsRegistry =
      let (t, run, (valid, view_is, count_is)) =
        hash_tab_remove-Without mi.tab ok.valid (id_key id) in
      (
        record mi { tab = t },
        remove_runs t _ run,
        record {
          valid = valid;
          pos = ok.pos;
          in_range = ok.in_range;
          free = λ i le l. view_is (id_key i) ∙ none_left i le l;
        },
        find_none (record mi { tab = t }) id
            (view_is (id_key id) ∙ rw (keycmp_refl (id_key id)) refl),
        λ i l ne.
            find-view mi (record mi { tab = t }) i
              (view_is (id_key i) ∙ rw (keycmp-id_key id i lt l (λ same. ne (sym same))) refl),
        refl,
      )
    where
      none_left :
          (i : ℕ)
          → mi.next_id ≤ i
          → i < 2 ^ 64
          → updated (view mi.tab) (id_key id) none (id_key i) ≡ none
      none_left i le l = elim (Bool-cases (keycmp (id_key id) (id_key i))) [
        | inl same ↦ rw same refl
        | inr other ↦ rw other (ok.free i le l)
      ]

-- What is found has an id below the counter.
pub found_below :
    (mi : MasterInstruments) (id : ℕ) (e : MiEntry)
    → IsRegistry mi
    → id < 2 ^ 64
    → mi_find mi id ≡ some e
    → id < mi.next_id
found_below mi id e ok lt found = elim (Bool-cases (ltb id mi.next_id)) [
  | inl b ↦ ground arith
  | inr b ↦ let gone = find_none mi id (ok.free id (ground arith) lt) in absurd cc
]
