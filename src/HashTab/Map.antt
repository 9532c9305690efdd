-- ===== src/HashTab/Map.antt =====
-- hash-tab.c: `hash_tab_init` and `hash_tab_add` as operations on a finite map.
use jauto_profiler_mcp.Prelude.{
  ℕ, ◌+◌, ◌<◌, ◌≡◌, refl, ap, ◌∙◌, sym, ◌⊎◌, inl, inr, Bool, true, false, Option, none, some, arith,
  Bool-cases, subst,
}
use jauto_profiler_mcp.HashTab.{
  Bytes, HashTab, hash_insert, rehash, need_rehash, make_room, hash_tab_add, hash_tab_size,
  hash_tab_lookup, hash_tab_init,
}
use jauto_profiler_mcp.HashTab.Valid.{IsValid}
use jauto_profiler_mcp.HashTab.View.{view, updated, lookup-view}
use jauto_profiler_mcp.HashTab.Put.{
  flat, entries_for, hash_insert-With, empty, empty-IsValid, view-empty,
}
use jauto_profiler_mcp.HashTab.Rehash.{Rehashed, rehash-Rehashed}

module _ {V : Type 0} where
  flat-view : (t : HashTab V) (k : Bytes) → flat (view t k) ≡ hash_tab_lookup t k
  flat-view t k = ground (arith, lookup-view t k)

  -- `u` is the table `t` with the value for the key, and `prev` is what the key stood for, or NULL
  pub record Added (t : HashTab V) (key : Bytes) (val : Option V) (u : HashTab V) (prev : Option V)
      : Type 0 where
    pub valid : IsValid u
    pub view_is : (k : Bytes) → view u k ≡ updated (view t) key (some val) k
    pub prev_is : prev ≡ hash_tab_lookup t key
    pub count_is : hash_tab_size u + entries_for (view t key) ≡ hash_tab_size t + 1

  module _ (t : HashTab V) (ok : IsValid t) (key : Bytes) (val : Option V) where
    -- a table that stands for what `t` does and has a slot to spare
    record Roomy (t' : HashTab V) : Type 0 where
      pub valid : IsValid t'
      pub view_is : (k : Bytes) → view t' k ≡ view t k
      pub count_is : t'.count ≡ t.count
      pub room : t'.count + 1 < t'.capacity

    add_to :
        (t' : HashTab V)
        → Roomy t'
        → (u : HashTab V) × (prev : Option V) × (hash_insert t' key val ≡ some (u, prev))
          × Added t key val u prev
    unfolding hash_tab_size
    add_to t' r =
        let (u, prev, runs, w) = hash_insert-With t' r.valid key val r.room in
        (
          u,
          prev,
          runs,
          record {
            valid = w.valid;
            view_is = λ k. ground (arith, w.view_is k, r.view_is k);
            prev_is = w.prev_is ∙ ap flat (r.view_is key) ∙ flat-view t key;
            count_is = ground (arith, w.count_is, r.count_is, r.view_is key);
          },
        )

    stay : need_rehash t ≡ false → Roomy t
    unfolding need_rehash
    stay e = record {
      valid = ok;
      view_is = λ k. refl;
      count_is = refl;
      room = ok.thresh (t.count + 1) t.capacity e;
    }

    grow : (u : HashTab V) → Rehashed t ok u → Roomy u
    grow u r = record {
      valid = r.valid;
      view_is = r.view_is;
      count_is = r.count_is;
      room = omega (arith, r.count_is, r.capacity_is, ok.room);
    }

    make_room_not : (b : Bool) → need_rehash t ≡ false → make_room b t ≡ some (t, true)
    unfolding make_room
    make_room_not b e = rw (e, make_room)

    make_room_need : (b : Bool) → need_rehash t ≡ true → make_room b t ≡ rehash b t
    unfolding make_room
    make_room_need b e = rw (e, make_room) refl

    rehash_fails : rehash false t ≡ some (t, false)
    unfolding rehash
    rehash_fails = refl

    -- an outcome of `hash_tab_add`: the table as it was, when an allocation fails that is needed, or
    -- the table with the value
    abbrev pub Outcome : Bool → Bool → HashTab V → Bool → Option V → Type 0
    Outcome key_ok tab_ok u done prev =
        (done ≡ false)
          × (u ≡ t)
          × (prev ≡ none)
          × ((key_ok ≡ false) ⊎ ((tab_ok ≡ false) × (need_rehash t ≡ true)))
        ⊎ (done ≡ true) × Added t key val u prev

    abbrev AddRuns : Bool → Bool → Type 0
    AddRuns key_ok tab_ok =
        (u : HashTab V) × (done : Bool) × (prev : Option V) × (hash_tab_add key_ok tab_ok t key val
          ≡ some (u, done, prev))
        × Outcome key_ok tab_ok u done prev

    add_runs :
        (tab_ok : Bool) (t' : HashTab V)
        → make_room tab_ok t ≡ some (t', true)
        → Roomy t'
        → AddRuns true tab_ok
    unfolding hash_tab_add
    add_runs tab_ok t' e r =
        let (u, prev, runs, added) = add_to t' r in
        (u, true, prev, rw (e, hash_tab_add) (rw runs refl), inr (refl, added))

    add_full :
        (tab_ok : Bool)
        → tab_ok ≡ false
        → need_rehash t ≡ true
        → make_room tab_ok t ≡ some (t, false)
        → AddRuns true tab_ok
    unfolding hash_tab_add
    add_full tab_ok bad need e =
        (t, false, none, rw (e, hash_tab_add), inl (refl, refl, refl, inr (bad, need)))

    add_no_key : (key_ok tab_ok : Bool) → key_ok ≡ false → AddRuns key_ok tab_ok
    unfolding hash_tab_add
    add_no_key key_ok tab_ok bad =
        (t, false, none, rw (bad, hash_tab_add), inl (refl, refl, refl, inl bad))

    add_with_key : (tab_ok : Bool) → AddRuns true tab_ok
    add_with_key tab_ok = elim (Bool-cases (need_rehash t)) [
      | inr e ↦ add_runs tab_ok t (make_room_not tab_ok e) (stay e)
      | inl e ↦ elim (Bool-cases tab_ok) [
        | inl good ↦
            let (u, runs, r) = rehash-Rehashed t ok in
            add_runs tab_ok u (make_room_need tab_ok e ∙ ap (λ b. rehash b t) good ∙ runs)
              (grow u r)
        | inr bad ↦
            add_full tab_ok bad e
              (make_room_need tab_ok e ∙ ap (λ b. rehash b t) bad ∙ rehash_fails)
      ]
    ]

    -- On a valid table `hash_tab_add` fails no assertion. It reports an error only when the
    -- allocation of the key fails, or that of the larger array where the load asks for one, and
    -- then the table is as it was. Otherwise the new table is valid, the key stands for the value,
    -- every other key for what it stood for, also across a rehash, `prev` is what a lookup of the
    -- key gave before, and the size grows by one if and only if the key was new.
    pub hash_tab_add-Outcome :
        (key_ok tab_ok : Bool)
        → (u : HashTab V) × (done : Bool) × (prev : Option V) × (hash_tab_add key_ok tab_ok t key
              val
            ≡ some (u, done, prev))
          × Outcome key_ok tab_ok u done prev
    hash_tab_add-Outcome key_ok tab_ok = elim (Bool-cases key_ok) [
      | inl good ↦ subst (λ b. AddRuns b tab_ok) (sym good) (add_with_key tab_ok)
      | inr bad ↦ add_no_key key_ok tab_ok bad
    ]

  -- `hash_tab_init` with a capacity, memory, and a test that a table without a spare slot always
  -- passes, gives a valid table of size 0 in which no key stands for anything.
  pub hash_tab_init-IsValid :
      (cap : ℕ) (hash_fn : Bytes → ℕ) (over : ℕ → ℕ → Bool)
      → 0 < cap
      → ((c n : ℕ) → over c n ≡ false → c < n)
      → (t : HashTab V) × (hash_tab_init true cap hash_fn over ≡ some t)
        × IsValid t
        × (hash_tab_size t ≡ 0)
        × ((k : Bytes) → view t k ≡ none)
  unfolding hash_tab_init hash_tab_size
  hash_tab_init-IsValid cap hash_fn over pos below = (
    empty cap hash_fn over,
    ground arith,
    empty-IsValid cap hash_fn over pos below,
    refl,
    view-empty cap hash_fn over pos below,
  )
