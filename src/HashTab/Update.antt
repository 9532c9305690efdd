-- ===== src/HashTab/Update.antt =====
-- hash-tab.c: what `hash_insert` does to the entries that can be reached and to the contents.
use jauto_profiler_mcp.Prelude.{
  ℕ, ◌≡◌, sym, ◌≢◌, inl, inr, true, List, Option, some, ◌==◌, arith, Bool-cases, subst, ==_iff,
}
use jauto_profiler_mcp.HashTab.{Bytes, HashTab}
use jauto_profiler_mcp.HashTab.Probe.{is_some, Reach}
use jauto_profiler_mcp.HashTab.Links.{keys, Writes}
use jauto_profiler_mcp.HashTab.Insert.{Inserts, slot_at}
use jauto_profiler_mcp.HashTab.Valid.{Reaches}

module _ {V : Type 0} where
  -- the table has an entry for the key, with that value
  abbrev pub Has : HashTab V → Bytes → Option V → Type 0
  Has t k v = (s : ℕ) × (keys t s ≡ some k) × ((t.tab s).val ≡ v)

  module _ (t u : HashTab V) (i : ℕ) (x : Bytes) (v : Option V) (w : Writes t i (some x) v u) where
    -- Filling a slot keeps a path.
    pub taken_writes : (s : ℕ) → is_some (keys t s) ≡ true → is_some (keys u s) ≡ true
    taken_writes s h = ground (arith, w.key_at s)

    pub Reach-writes : (h s : ℕ) → Reach (keys t) t.capacity h s → Reach (keys u) u.capacity h s
    Reach-writes h s r = rw w.same_capacity (record {
      dist = r.dist;
      near = r.near;
      at = r.at;
      path = λ e lt. taken_writes _ (r.path e lt);
    })

  module _ (t u : HashTab V) (key : Bytes) (val prev : Option V) (d : ℕ) (m : List ℕ)
      (ins : Inserts t key val d u prev m) where
    -- The new entry can be reached.
    pub Reach-new : (s : ℕ) → slot_at t key d ≡ s → Reach (keys u) u.capacity (u.hash_fn key) s
    Reach-new s e = rw (ins.writes.same_hash) (
        Reach-writes t u (slot_at t key d) key val ins.writes (t.hash_fn key) s
          (record { dist = d; near = ins.near; at = sym e; path = ins.path }))

    pub Reaches-insert : Reaches t → Reaches u
    Reaches-insert reaches s k at = elim (Bool-cases (slot_at t key d == s)) [
      | inl here ↦
          subst (λ x. Reach (keys u) u.capacity (u.hash_fn x) s)
            (ground (arith, ins.writes.key_at s)) (Reach-new s ((==_iff _ s).0 here))
      | inr there ↦ rw (ins.writes.same_hash) (
          Reach-writes t u (slot_at t key d) key val ins.writes (t.hash_fn k) s
            (reaches s k (ground (arith, ins.writes.key_at s))))
    ]

    -- The key has its new value.
    pub Has-insert_self : Has u key val
    Has-insert_self = (
      slot_at t key d,
      ground (arith, ins.writes.key_at (slot_at t key d)),
      ground (arith, ins.writes.val_at (slot_at t key d)),
    )

    -- The other keys have the values that they had.
    pub Has-insert : (k : Bytes) (v : Option V) → k ≢ key → Has t k v → Has u k v
    Has-insert k v ne (s, at, is) = (
      s,
      ground (arith, ins.writes.key_at s, ins.stops),
      ground (arith, ins.writes.val_at s, ins.stops),
    )

    pub Has-insert_back : (k : Bytes) (v : Option V) → k ≢ key → Has u k v → Has t k v
    Has-insert_back k v ne (s, at, is) = (
      s,
      ground (arith, ins.writes.key_at s),
      ground (arith, ins.writes.val_at s, ins.writes.key_at s),
    )
