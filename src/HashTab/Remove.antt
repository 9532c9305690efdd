-- ===== src/HashTab/Remove.antt =====
-- hash-tab.c: the loop of `hash_tab_remove` and the whole function.
use jauto_profiler_mcp.Prelude.{
  ℕ, zero, suc, ◌+◌, ◌%◌, ◌≤◌, ◌≡◌, refl, ap, ◌∙◌, sym, inl, inr, List, Option, none, some, arith,
  Option-cases, subst, ℕ_discrete,
}
use jauto_profiler_mcp.HashTab.{Bytes, HashTab, ent_unlink, hash_insert, reinsert}
use jauto_profiler_mcp.HashTab.Probe.{next_slot}
use jauto_profiler_mcp.HashTab.Links.{Core, keys}
use jauto_profiler_mcp.HashTab.Valid.{Reaches}
use jauto_profiler_mcp.HashTab.Update.{Has}
use jauto_profiler_mcp.HashTab.Move.{Moving, Round, idx, finished, round}

module _ {V : Type 0} where
  -- `u` is `t` with its entries where they can be reached
  pub record Settled (t u : HashTab V) (m : List ℕ) : Type 0 where
    pub core : Core u m
    pub reaches : Reaches u
    pub same_count : u.count ≡ t.count
    pub same_capacity : u.capacity ≡ t.capacity
    pub same_thresh : u.over_thresh ≡ t.over_thresh
    pub has : (k : Bytes) (v : Option V) → Has t k v → Has u k v
    pub back : (k : Bytes) (v : Option V) → Has u k v → Has t k v

  reinsert_stop : (n s : ℕ) (t : HashTab V) → keys t s ≡ none → reinsert (suc n) s t ≡ some t
  unfolding reinsert
  reinsert_stop n s t free = rw (free, reinsert)

  reinsert_round :
      (n s : ℕ) (t c u : HashTab V) (k : Bytes) (prev : Option V)
      → keys t s ≡ some k
      → ent_unlink t s ≡ some c
      → hash_insert c k (t.tab s).val ≡ some (u, prev)
      → reinsert (suc n) s t ≡ reinsert n ((s + 1) % t.capacity) u
  unfolding reinsert
  reinsert_round n s t c u k prev held cutting inserting =
      rw (held, reinsert) (rw cutting (rw inserting refl))

  Settled-at : (t : HashTab V) (l : List ℕ) → Core t l → Reaches t → Settled t t l
  Settled-at t l c r = record {
    core = c;
    reaches = r;
    same_count = refl;
    same_capacity = refl;
    same_thresh = refl;
    has = λ k v h. h;
    back = λ k v h. h;
  }

  continue :
      (n : ℕ) (t u w : HashTab V) (s : ℕ) (k : Bytes) (m m' : List ℕ) (j a e : ℕ)
      → Round t u s k m j a e
      → s ≡ (j + suc a) % t.capacity
      → reinsert n ((j + suc (suc a)) % u.capacity) u ≡ some w
      → Settled u w m'
      → (reinsert (suc n) s t ≡ some w) × Settled t w m'
  continue n t u w s k m m' j a e r at rest done =
      let (c, prev, cutting, inserting) = r.unlinks in
      (
        reinsert_round n s t c u k prev r.held cutting inserting
            ∙ ap (λ x. reinsert n x u) (next at)
            ∙ rest,
        record {
          core = done.core;
          reaches = done.reaches;
          same_count = done.same_count ∙ r.same_count;
          same_capacity = done.same_capacity ∙ r.same_capacity;
          same_thresh = done.same_thresh ∙ r.same_thresh;
          has = λ k v h. done.has k v (r.has k v h);
          back = λ k v h. r.back k v (done.back k v h);
        },
      )
    where
      next : s ≡ (j + suc a) % t.capacity → (s + 1) % t.capacity ≡ (j + suc (suc a)) % u.capacity
      next at =
          ap (λ x. (x + 1) % t.capacity) at
          ∙ next_slot (j + suc a) t.capacity
          ∙ ap (λ x. x % t.capacity) (omega arith)
          ∙ ap (λ x. (j + suc (suc a)) % x) (sym r.same_capacity)

  -- With enough rounds for the run, the loop ends with every entry in reach.
  pub reinsert-Settled :
      (n : ℕ) (t : HashTab V) (l : List ℕ) (j a e : ℕ)
      → Moving t l j a e
      → e ≤ suc a + n
      → (u : HashTab V) × (m : List ℕ) × (reinsert n ((j + suc a) % t.capacity) t ≡ some u)
        × Settled t u m
  reinsert-Settled zero t l j a e mv le = (
    t,
    l,
    unfold reinsert in refl,
    Settled-at t l mv.core (finished t l j a e mv (omega (arith, mv.ahead))),
  )
  reinsert-Settled (suc n) t l j a e mv le = elim (ℕ_discrete (suc a) e) [
    | yes end ↦ (
      t,
      l,
      reinsert_stop n _ t (subst (λ x. keys t ((j + x) % t.capacity) ≡ none) (sym end) mv.stop),
      Settled-at t l mv.core (finished t l j a e mv end),
    )
    | no more ↦ elim (Option-cases (keys t (idx t l j a e mv))) [
      | inl free ↦ absurd (ground (arith, mv.taken (suc a) (omega arith) (omega (arith, mv.ahead))))
      | inr (k, held) ↦
          let (u, m, r) = round t l j a e mv k held (omega (arith, mv.ahead)) in
          let (w, m', rest, settled) = reinsert-Settled n u m j (suc a) e r.moving (omega arith) in
          let (e1, e2) = continue n t u w _ k m m' j a e r refl rest settled in (w, m', e1, e2)
    ]
  ]
