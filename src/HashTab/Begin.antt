-- ===== src/HashTab/Begin.antt =====
-- hash-tab.c: the state in which the loop of `hash_tab_remove` starts, behind the first unlinking.
use native.Mathlib.Nat.{mod-eq_of_lt}
use jauto_profiler_mcp.Prelude.{
  ℕ, ◌+◌, ◌-◌, ◌%◌, ◌<◌, ◌≡◌, refl, ap, ◌∙◌, sym, ◌≢◌, ◌⊎◌, inl, inr, true, none, some, ◌==◌, arith,
  Bool-cases, subst, ==_iff,
}
use jauto_profiler_mcp.HashTab.{Bytes, HashTab}
use jauto_profiler_mcp.HashTab.Probe.{is_some, Reach}
use jauto_profiler_mcp.HashTab.Order.{remove, length-remove}
use jauto_profiler_mcp.HashTab.Links.{keys, Writes, cut, cut-Writes, cut-Core}
use jauto_profiler_mcp.HashTab.Room.{slots_ne, free_ahead}
use jauto_profiler_mcp.HashTab.Valid.{IsValid}
use jauto_profiler_mcp.HashTab.Cluster.{avoids_or_behind, Run, Run-from}
use jauto_profiler_mcp.HashTab.Move.{Open, Moving}

module _ {V : Type 0} (t : HashTab V) (v : IsValid t) (j : ℕ) (x : Bytes)
    (at : keys t j ≡ some x) where
  wr : Writes t j none none (cut t j)
  wr = cut-Writes t j

  pub held : is_some (keys t j) ≡ true
  held = rw at refl

  home : (j + 0) % t.capacity ≡ j
  home = ap (λ y. y % t.capacity) (omega arith) ∙ mod-eq_of_lt (v.core.inside j held)

  pub count-cut : (cut t j).count + 1 ≡ t.count
  count-cut = ground (
    arith,
    (cut-Core t j v.order v.core held).counted,
    v.core.counted,
    v.core.tally j,
    held,
    length-remove j v.order,
  )

  -- The run behind the entry ends before it comes round to the entry.
  Run-behind : (e : ℕ) × (e < t.capacity) × Run (keys t) j t.capacity 1 e
  Run-behind =
      let (m, near, free) = free_ahead t v.order v.core v.room j in
      elim (Bool-cases (m == 0)) [
        | inl e ↦ absurd (ground (arith, at, home, (==_iff m 0).0 e))
        | inr e ↦
            let (x, le, r) =
              Run-from (keys t) j t.capacity (m - 1) 1
                (subst (λ y. keys t ((j + y) % t.capacity) ≡ none) (ground arith) free) in
            (x, ground arith, r)
      ]

  still : (s : ℕ) → is_some (keys t s) ≡ true → (is_some (keys (cut t j) s) ≡ true) ⊎ (s ≡ j)
  still s full = ground (arith, wr.key_at s)

  elsewhere : (s : ℕ) → s ≢ j → keys (cut t j) s ≡ keys t s
  elsewhere s ne = ground (arith, wr.key_at s)

  same_key : (s : ℕ) (k : Bytes) → keys (cut t j) s ≡ some k → keys t s ≡ some k
  same_key s k h = ground (arith, wr.key_at s)

  Open-start : (s : ℕ) (k : Bytes) → keys (cut t j) s ≡ some k → Open (cut t j) j 0 (t.hash_fn k) s
  Open-start s k h =
      let r = v.reaches s k (same_key s k h) in
      record {
        dist = r.dist;
        near = rw wr.same_capacity r.near;
        at = rw wr.same_capacity r.at;
        path = λ i lt. rw wr.same_capacity (elim (still _ (r.path i lt)) [
          | inl kept ↦ inl kept
          | inr is ↦ inr (0, omega arith, is ∙ sym home)
        ]);
      }

  abbrev Closed : ℕ → ℕ → ℕ → ℕ → Type 0
  Closed width h s e =
      Reach (keys (cut t j)) width h s ⊎ ((m : ℕ) × (0 < m) × (m < e) × (s ≡ (j + m) % width))

  Closed-start :
      (e : ℕ)
      → 0 < e
      → keys t ((j + e) % t.capacity) ≡ none
      → (s : ℕ) (k : Bytes) → keys (cut t j) s ≡ some k
      → Closed t.capacity (t.hash_fn k) s e
  Closed-start e pos stop s k h =
      let r = v.reaches s k (same_key s k h) in
      elim (avoids_or_behind (keys t) j t.capacity 0 e (t.hash_fn k) s k stop pos (same_key s k h)
        r) [
          | inl miss ↦ inl (record {
            dist = r.dist;
            near = r.near;
            at = r.at;
            path = λ i lt. elim (still _ (r.path i lt)) [
              | inl kept ↦ kept
              | inr is ↦ absurd (miss i lt (is ∙ sym home))
            ];
          })
          | inr behind ↦ inr behind
        ]

  -- The loop starts at the next slot, with one hole.
  pub begin : (e : ℕ) × (e < t.capacity) × Moving (cut t j) (remove j v.order) j 0 e
  begin =
      let (e, near, run) = Run-behind in
      (
        e,
        near,
        record {
          core = cut-Core t j v.order v.core held;
          room = omega (arith, count-cut, v.room, wr.same_capacity);
          ahead = run.before;
          near = rw wr.same_capacity near;
          open_paths = λ s k h.
              subst (λ f. Open (cut t j) j 0 (f k) s) (sym wr.same_hash) (Open-start s k h);
          closed = λ s k h.
              subst (λ f. Closed (cut t j).capacity (f k) s e) (sym wr.same_hash)
                (subst (λ w. Closed w (t.hash_fn k) s e) (sym wr.same_capacity)
                  (Closed-start e run.before run.stop s k h));
          taken = λ m lo hi. rw wr.same_capacity (elim (still _ (run.taken m lo hi)) [
            | inl kept ↦ kept
            | inr is ↦ absurd (slots_ne j 0 m t.capacity lo (omega (arith, near)) (home ∙ sym is))
          ]);
          stop = rw wr.same_capacity (
              elsewhere _ (λ is. slots_ne j 0 e t.capacity run.before near (home ∙ sym is))
              ∙ run.stop);
        },
      )
