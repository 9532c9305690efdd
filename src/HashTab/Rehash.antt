-- ===== src/HashTab/Rehash.antt =====
-- hash-tab.c: `rehash` on a table that keeps the invariant.
use jauto_profiler_mcp.Prelude.{
  ◌+◌, ◌*◌, ◌≡◌, refl, ap, ◌∙◌, sym, inl, inr, true, ◌∷◌, Option, none, some, arith, length, subst,
}
use jauto_profiler_mcp.HashTab.{Bytes, HashTab, copy_entries, rehash}
use jauto_profiler_mcp.HashTab.Order.{times, succ_in}
use jauto_profiler_mcp.HashTab.Valid.{IsValid}
use jauto_profiler_mcp.HashTab.View.{view, view_held, view_absent, View-cases}
use jauto_profiler_mcp.HashTab.Put.{empty, empty-IsValid, view-empty}
use jauto_profiler_mcp.HashTab.Copy.{
  succ_in-append, times-append, Chain, copied, copied_other, copied_held, copy_entries-Copied,
}

module _ {V : Type 0} (t : HashTab V) (ok : IsValid t) where
  pub order-Chain : Chain t.tab ok.order
  order-Chain = record {
    nodup = λ s. ground (arith, ok.core.tally s);
    occupied = λ s h. ground (arith, ok.core.tally s);
    unique = λ s r k hs hr. ok.core.unique s r k;
    next_is = λ a pre post e.
        let twice : times a ok.order ≡ times a pre + times a (a ∷ post) =
          ap (times a) e ∙ times-append a pre (a ∷ post) in
        ok.core.next_succ a (ground (arith, ok.core.tally a))
        ∙ ap (succ_in a) e
        ∙ succ_in-append pre post a (ground (arith, ok.core.tally a));
  }

  -- Every entry is on the list.
  copied-view :
      (f : Bytes → Option (Option V)) (k : Bytes)
      → f k ≡ none
      → copied t.tab ok.order f k ≡ view t k
  copied-view f k free = elim (View-cases t ok k) [
    | inl (v, (s, at, is)) ↦
        copied_held t.tab ok.order f k s order-Chain (ground (arith, ok.core.tally s)) at
        ∙ sym (view_held t ok k (t.tab s).val (s, at, refl))
    | inr gone ↦
        copied_other t.tab ok.order f k (λ s hs at. gone (t.tab s).val (s, at, refl))
        ∙ free
        ∙ sym (view_absent t ok k gone)
  ]

  -- `u` stands for what `t` does, in an array of another size
  pub record Rehashed (u : HashTab V) : Type 0 where
    pub valid : IsValid u
    pub view_is : (k : Bytes) → view u k ≡ view t k
    pub count_is : u.count ≡ t.count
    pub capacity_is : u.capacity ≡ t.capacity * 2

  abbrev fresh_table : HashTab V
  fresh_table = empty (t.capacity * 2) t.hash_fn t.over_thresh

  rehash_runs :
      (u : HashTab V)
      → copy_entries t.count t.tab t.head fresh_table ≡ some u
      → rehash true t ≡ some (u, true)
  unfolding rehash
  rehash_runs u e = rw (e, rehash) refl

  pub rehash-Rehashed : (u : HashTab V) × (rehash true t ≡ some (u, true)) × Rehashed u
  rehash-Rehashed =
      let start =
        empty-IsValid (t.capacity * 2) t.hash_fn t.over_thresh (omega (arith, ok.core.pos))
          ok.thresh in
      let free =
        view-empty (t.capacity * 2) t.hash_fn t.over_thresh (omega (arith, ok.core.pos))
          ok.thresh in
      let (u, runs, done) =
        copy_entries-Copied t.tab ok.order fresh_table order-Chain start
          (omega (arith, ok.core.counted, ok.room)) (λ s k hs at. free k) in
      (
        u,
        rehash_runs u (
            subst (λ n. copy_entries n t.tab t.head fresh_table ≡ some u) (sym ok.core.counted)
              (subst (λ h. copy_entries (length ok.order) t.tab h fresh_table ≡ some u)
                (sym ok.core.head_first) runs)),
        record {
          valid = done.valid;
          view_is = λ k. done.view_is k ∙ copied-view (view fresh_table) k (free k);
          count_is = omega (arith, done.count_is, ok.core.counted);
          capacity_is = done.same_capacity;
        },
      )
