-- ===== src/HashTab/Valid.antt =====
-- hash-tab.c: the invariant of a table, and what `ent_lookup` finds in a table that keeps it.
use jauto_profiler_mcp.Prelude.{
  ℕ, ◌+◌, ◌%◌, ◌<◌, ◌≡◌, ap, ◌∙◌, sym, ◌≢◌, ◌⊎◌, inl, inr, true, false, List, none, some, arith,
  Bool-cases, Option-cases, subst,
}
use jauto_profiler_mcp.HashTab.{Bytes, HashTab, keycmp, ent_lookup, hash_tab_lookup}
use jauto_profiler_mcp.HashTab.Probe.{Reach, keycmp→eq}
use jauto_profiler_mcp.HashTab.Search.{Passes, lookup_from_finds, lookup_from_sound}
use jauto_profiler_mcp.HashTab.Links.{Core, keys}
use jauto_profiler_mcp.HashTab.Room.{slots_ne}
use jauto_profiler_mcp.HashTab.Insert.{slot_at}

module _ {V : Type 0} where
  -- every entry can be reached from the home of its key
  abbrev pub Reaches : HashTab V → Type 0
  Reaches t = (s : ℕ) (k : Bytes) → keys t s ≡ some k → Reach (keys t) t.capacity (t.hash_fn k) s

  -- `order` is the linked list. There is an empty slot, and below the threshold there is one more.
  pub record IsValid (t : HashTab V) : Type 0 where
    pub order : List ℕ
    pub core : Core t order
    pub reaches : Reaches t
    pub room : t.count < t.capacity
    pub thresh : (c n : ℕ) → t.over_thresh c n ≡ false → c < n

  -- What is looked up is the value of the slot that was found.
  pub lookup_slot :
      (t : HashTab V) (k : Bytes) (i : ℕ)
      → ent_lookup t k ≡ some i
      → hash_tab_lookup t k ≡ (t.tab i).val
  unfolding hash_tab_lookup
  lookup_slot t k i e = rw (e, hash_tab_lookup)

  pub lookup_no_slot :
      (t : HashTab V) (k : Bytes) → ent_lookup t k ≡ none → hash_tab_lookup t k ≡ none
  unfolding hash_tab_lookup
  lookup_no_slot t k e = rw (e, hash_tab_lookup)

  module _ (t : HashTab V) (l : List ℕ) (c : Core t l) (reaches : Reaches t) (k : Bytes) where
    passes :
        (s e : ℕ)
        → keys t s ≡ some k
        → (r : Reach (keys t) t.capacity (t.hash_fn k) s) → e < r.dist
        → Passes t.tab t.capacity k ((t.hash_fn k + e) % t.capacity)
    passes s e at r lt = elim (Option-cases (keys t (slot_at t k e))) [
      | inl free ↦ absurd (ground (arith, r.path e lt))
      | inr (k', held) ↦ (k', held, differs k' held (Bool-cases (keycmp k' k)))
    ]
      where
        differs :
            (k' : Bytes)
            → keys t (slot_at t k e) ≡ some k'
            → ((keycmp k' k ≡ true) ⊎ (keycmp k' k ≡ false))
            → keycmp k' k ≡ false
        differs k' held (inr no_match) = no_match
        differs k' held (inl match) = absurd (
            slots_ne (t.hash_fn k) e r.dist t.capacity lt r.near
              (c.unique _ s k (held ∙ ap some (keycmp→eq k' k match)) at ∙ r.at))

    -- The entry of a key is found.
    pub ent_lookup_held : (s : ℕ) → keys t s ≡ some k → ent_lookup t k ≡ some s
    unfolding ent_lookup
    ent_lookup_held s at =
        let r = reaches s k at in
        lookup_from_finds t.tab t.capacity k t.capacity (t.hash_fn k) r.dist r.near
          (λ e lt. passes s e at r lt) (subst (λ i. keys t i ≡ some k) r.at at)
        ∙ ap some (sym r.at)

    -- A key stands in a slot or in none.
    pub Held-cases : ((s : ℕ) × (keys t s ≡ some k)) ⊎ ((s : ℕ) → keys t s ≢ some k)
    unfolding ent_lookup
    Held-cases = elim (Option-cases (ent_lookup t k)) [
      | inl e ↦ inr (λ s at. cc (ent_lookup_held s at))
      | inr (s, e) ↦ inl (s, lookup_from_sound t.tab t.capacity k t.capacity _ s e)
    ]

    pub lookup_held : (s : ℕ) → keys t s ≡ some k → hash_tab_lookup t k ≡ (t.tab s).val
    unfolding hash_tab_lookup
    lookup_held s at = rw (ent_lookup_held s at, hash_tab_lookup)

    pub ent_lookup_absent : ((s : ℕ) → keys t s ≢ some k) → ent_lookup t k ≡ none
    unfolding ent_lookup
    ent_lookup_absent absent = elim (Option-cases (ent_lookup t k)) [
      | inl e ↦ e
      | inr (s, e) ↦ absurd (absent s (lookup_from_sound t.tab t.capacity k t.capacity _ s e))
    ]

    pub lookup_absent : ((s : ℕ) → keys t s ≢ some k) → hash_tab_lookup t k ≡ none
    unfolding hash_tab_lookup
    lookup_absent absent = rw (ent_lookup_absent absent, hash_tab_lookup)
