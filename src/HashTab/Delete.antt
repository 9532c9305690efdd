-- ===== src/HashTab/Delete.antt =====
-- hash-tab.c: `hash_tab_remove` on a table that keeps the invariant.
use jauto_profiler_mcp.Prelude.{
  ℕ, ◌+◌, ◌%◌, ◌≡◌, refl, ap, ◌∙◌, sym, ◌≢◌, inl, inr, List, Option, none, some, arith,
  Option-cases,
}
use jauto_profiler_mcp.HashTab.{
  Bytes, HashTab, ent_lookup, ent_unlink, reinsert, hash_tab_lookup, hash_tab_remove,
}
use jauto_profiler_mcp.HashTab.Links.{keys, Writes, cut, cut-Writes, ent_unlink-cut}
use jauto_profiler_mcp.HashTab.Search.{lookup_from_sound}
use jauto_profiler_mcp.HashTab.Valid.{IsValid, ent_lookup_held}
use jauto_profiler_mcp.HashTab.Update.{Has}
use jauto_profiler_mcp.HashTab.View.{view, view_absent, view_agree, updated, updated_by}
use jauto_profiler_mcp.HashTab.Put.{entries_for}
use jauto_profiler_mcp.HashTab.Begin.{held, count-cut, begin}
use jauto_profiler_mcp.HashTab.Remove.{Settled, reinsert-Settled}

module _ {V : Type 0} where
  -- `u` is the table `t` without the key
  abbrev pub Without : HashTab V → Bytes → HashTab V → Type 0
  Without t key u =
      IsValid u
      × ((k : Bytes) → view u k ≡ updated (view t) key none k)
      × (u.count + entries_for (view t key) ≡ t.count)

  hash_tab_remove_miss :
      (t : HashTab V) (key : Bytes)
      → ent_lookup t key ≡ none
      → hash_tab_remove t key ≡ some (t, none)
  unfolding hash_tab_remove
  hash_tab_remove_miss t key miss = rw (miss, hash_tab_remove)

  hash_tab_remove_hit :
      (t c u : HashTab V) (key : Bytes) (i : ℕ)
      → ent_lookup t key ≡ some i
      → ent_unlink t i ≡ some c
      → reinsert t.capacity ((i + 1) % t.capacity) c ≡ some u
      → hash_tab_remove t key ≡ some (u, (t.tab i).val)
  unfolding hash_tab_remove
  hash_tab_remove_hit t c u key i hit cutting moving =
      rw (hit, hash_tab_remove) (rw cutting (rw moving refl))

  module _ (t : HashTab V) (valid : IsValid t) (key : Bytes) where
    Without-miss : ent_lookup t key ≡ none → Without t key t
    unfolding view
    Without-miss miss =
        (valid, updated_by (view t) (view t) key none (ground arith) (λ k ne. refl), ground arith)

    module _ (i : ℕ) (at : keys t i ≡ some key) (u : HashTab V) (m : List ℕ)
        (done : Settled (cut t i) u m) where
      wr : Writes t i none none (cut t i)
      wr = cut-Writes t i

      valid' : IsValid u
      valid' = record {
        order = m;
        core = done.core;
        reaches = done.reaches;
        room = omega (
          arith,
          done.same_count,
          done.same_capacity,
          wr.same_capacity,
          valid.room,
          count-cut t valid i key at,
        );
        thresh = rw (done.same_thresh, wr.same_thresh) valid.thresh;
      }

      other-Has : (k : Bytes) → k ≢ key → (v : Option V) → Has t k v → Has u k v
      other-Has k ne v (s, there, is) =
          done.has k v (s, ground (arith, wr.key_at s), ground (arith, wr.val_at s))

      other_back : (k : Bytes) → (v : Option V) → Has u k v → Has t k v
      other_back k v h =
          let (s, there, is) = done.back k v h in
          (s, ground (arith, wr.key_at s), ground (arith, wr.val_at s, wr.key_at s))

      key_gone : (v : Option V) → Has u key v → ⊥
      key_gone v h =
          let (s, there, is) = done.back key v h in
          ground (arith, wr.key_at s, valid.core.unique s i key)

      view_hit : view t key ≡ some (t.tab i).val
      unfolding view
      view_hit = rw (ent_lookup_held t valid.order valid.core valid.reaches key i at, view)

      Without-hit : Without t key u
      Without-hit = (
        valid',
        updated_by (view t) (view u) key none (view_absent u valid' key key_gone)
            (λ k ne. view_agree t u k valid valid' (other-Has k ne) (other_back k)),
        rw view_hit (omega (arith, done.same_count, count-cut t valid i key at)),
      )

    entry_at : (i : ℕ) → ent_lookup t key ≡ some i → keys t i ≡ some key
    unfolding ent_lookup
    entry_at i hit = lookup_from_sound t.tab t.capacity key t.capacity _ i hit

    removed :
        (i : ℕ)
        → ent_lookup t key ≡ some i
        → (u : HashTab V) × (hash_tab_remove t key ≡ some (u, (t.tab i).val)) × Without t key u
    removed i hit =
        let (e, near, mv) = begin t valid i key (entry_at i hit) in
        let (u, m, moving, done) =
          reinsert-Settled t.capacity (cut t i) _ i 0 e mv (omega (arith, near)) in
        (
          u,
          hash_tab_remove_hit t (cut t i) u key i hit
              (ent_unlink-cut t i valid.order valid.core (held t valid i key (entry_at i hit)))
              (ap (λ w. reinsert t.capacity ((i + 1) % w) (cut t i))
                  (sym (cut-Writes t i).same_capacity)
                ∙ moving),
          Without-hit i (entry_at i hit) u m done,
        )

    value_at : (i : ℕ) → ent_lookup t key ≡ some i → hash_tab_lookup t key ≡ (t.tab i).val
    unfolding hash_tab_lookup
    value_at i hit = rw (hit, hash_tab_lookup)

    value_none : ent_lookup t key ≡ none → hash_tab_lookup t key ≡ none
    unfolding hash_tab_lookup
    value_none miss = rw (miss, hash_tab_lookup)

    -- On a valid table `hash_tab_remove` fails no assertion and returns the value that the key
    -- stood for, or NULL. The new table is valid, has lost the entry of the key, if it had one, and
    -- no other: each other key stands for what it stood for, and the count falls by the entries
    -- removed, one or none.
    pub hash_tab_remove-Without :
        (u : HashTab V) × (hash_tab_remove t key ≡ some (u, hash_tab_lookup t key))
        × Without t key u
    hash_tab_remove-Without = elim (Option-cases (ent_lookup t key)) [
      | inl miss ↦ (
        t,
        hash_tab_remove_miss t key miss ∙ ap (λ v. some (t, v)) (sym (value_none miss)),
        Without-miss miss,
      )
      | inr (i, hit) ↦
          let (u, runs, done) = removed i hit in
          (u, runs ∙ ap (λ v. some (u, v)) (sym (value_at i hit)), done)
    ]
