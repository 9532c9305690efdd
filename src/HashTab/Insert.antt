-- ===== src/HashTab/Insert.antt =====
-- hash-tab.c: `hash_insert` on a table whose links and keys are in order.
use jauto_profiler_mcp.Prelude.{
  ℕ, ◌+◌, ◌%◌, ◌<◌, ◌≡◌, refl, ◌≢◌, ◌⊎◌, inl, inr, List, ◌∷◌, Option, none, some, if◌then◌else◌,
  arith, dec_lt,
}
use jauto_profiler_mcp.HashTab.{Bytes, HashTab, link_front, replace_at, insert_at, hash_insert}
use jauto_profiler_mcp.HashTab.Probe.{is_some, Taken, Reach, keycmp_refl}
use jauto_profiler_mcp.HashTab.Search.{Finds, find_slot-Finds}
use jauto_profiler_mcp.HashTab.Links.{
  Core, keys, Writes, link_front-front, front, front-Writes, count-front, front-Core,
  replace_at-Writes, replace_at-Core,
}
use jauto_profiler_mcp.HashTab.Room.{free_ahead}

module _ {V : Type 0} where
  abbrev pub slot_at : HashTab V → Bytes → ℕ → ℕ
  slot_at t key d = (t.hash_fn key + d) % t.capacity

  -- The table `u` with list `m` is `t` with list `l` after the key was written `d` steps behind its
  -- home: into an empty slot, if no slot had the key, or over its entry.
  pub record Inserts (t : HashTab V) (key : Bytes) (val : Option V) (d : ℕ) (u : HashTab V)
      (prev : Option V) (m : List ℕ) : Type 0 where
    pub near : d < t.capacity
    pub path : Taken (keys t) t.capacity (t.hash_fn key) d
    pub stops : (keys t (slot_at t key d) ≡ none) ⊎ (keys t (slot_at t key d) ≡ some key)
    pub absent : keys t (slot_at t key d) ≡ none → (s : ℕ) → keys t s ≢ some key
    pub writes : Writes t (slot_at t key d) (some key) val u
    pub core : Core u m
    pub count_is : u.count ≡ (if is_some (keys t (slot_at t key d)) then t.count else t.count + 1)
    pub prev_is :
        prev ≡ (if is_some (keys t (slot_at t key d)) then (t.tab (slot_at t key d)).val else none)

  module _ (t : HashTab V) (key : Bytes) (val : Option V) where
    -- A search that ends at an empty slot has missed no entry for the key.
    no_entry :
        (d : ℕ) {r : Option ℕ}
        → Finds t.tab t.capacity key (t.hash_fn key) d r
        → keys t (slot_at t key d) ≡ none
        → (s : ℕ) → Reach (keys t) t.capacity (t.hash_fn key) s
        → keys t s ≢ some key
    no_entry d f free s reach e = elim (dec_lt reach.dist d) [
      | yes before ↦ ground (arith, f.passed reach.dist before, reach.at, keycmp_refl key)
      | no not_before ↦ elim (dec_lt d reach.dist) [
        | yes behind ↦ ground (arith, reach.path d behind)
        | no not_behind ↦ let same : reach.dist ≡ d = omega arith in ground (arith, reach.at, same)
      ]
    ]

    insert_at_free :
        (s : ℕ) (u : HashTab V)
        → keys t s ≡ none
        → link_front t s key val ≡ some u
        → insert_at t key val s ≡ some (u, none)
    unfolding insert_at
    insert_at_free s u free e = rw (free, insert_at) (rw e)

    insert_at_same :
        (s : ℕ)
        → keys t s ≡ some key
        → insert_at t key val s ≡ some (replace_at t s key val, (t.tab s).val)
    unfolding insert_at
    insert_at_same s same = rw (same, insert_at)

    insert_at-Inserts :
        (l : List ℕ) (d : ℕ) {r : Option ℕ}
        → Core t l
        → d < t.capacity
        → ((s : ℕ) → keys t s ≡ some key → Reach (keys t) t.capacity (t.hash_fn key) s)
        → Finds t.tab t.capacity key (t.hash_fn key) d r
        → (u : HashTab V) × (prev : Option V) × (m : List ℕ) × (insert_at t key val
              (slot_at t key d)
            ≡ some (u, prev))
          × Inserts t key val d u prev m
    unfolding replace_at
    insert_at-Inserts l d c near reach f = elim f.stop [
      | inl free ↦ (
        front t (slot_at t key d) key val,
        none,
        slot_at t key d ∷ l,
        insert_at_free (slot_at t key d) _ free (link_front-front t _ key val l c free),
        record {
          near = near;
          path = taken;
          stops = f.stop;
          absent = λ e s. absent free s;
          writes = front-Writes t (slot_at t key d) key val;
          core =
              front-Core t (slot_at t key d) key val l c free (omega (arith, c.pos)) (absent free);
          count_is = rw free (count-front t (slot_at t key d) key val);
          prev_is = rw free refl;
        },
      )
      | inr same ↦ (
        replace_at t (slot_at t key d) key val,
        (t.tab (slot_at t key d)).val,
        l,
        insert_at_same (slot_at t key d) same,
        record {
          near = near;
          path = taken;
          stops = f.stop;
          absent = λ e. cc;
          writes = replace_at-Writes t (slot_at t key d) key val;
          core = replace_at-Core t (slot_at t key d) key val l c same;
          count_is = rw same refl;
          prev_is = rw same refl;
        },
      )
    ]
      where
        taken : Taken (keys t) t.capacity (t.hash_fn key) d
        taken e lt = ground (arith, f.passed e lt)

        absent : keys t (slot_at t key d) ≡ none → (s : ℕ) → keys t s ≢ some key
        absent free s e = no_entry d f free s (reach s e) e

    -- `hash_insert` succeeds on a table with room in which an entry for the key can be reached.
    pub hash_insert-Inserts :
        (l : List ℕ)
        → Core t l
        → t.count < t.capacity
        → ((s : ℕ) → keys t s ≡ some key → Reach (keys t) t.capacity (t.hash_fn key) s)
        → (d : ℕ) × (u : HashTab V) × (prev : Option V) × (m : List ℕ) × (hash_insert t key val
            ≡ some (u, prev))
          × Inserts t key val d u prev m
    unfolding hash_insert
    hash_insert-Inserts l c room reach =
        let (m, near, free) = free_ahead t l c room (t.hash_fn key) in
        let (d, le, f) =
          find_slot-Finds t.tab t.capacity key t.capacity (t.hash_fn key) m near free in
        let (u, prev, m', e, ins) = insert_at-Inserts l d c (omega arith) reach f in
        (d, u, prev, m', rw f.result e, ins)
