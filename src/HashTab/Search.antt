-- ===== src/HashTab/Search.antt =====
-- hash-tab.c: the two probing loops, of `hash_insert` and of `ent_lookup`.
use jauto_profiler_mcp.Prelude.{
  ℕ, zero, suc, ◌+◌, ◌%◌, ◌≤◌, ◌<◌, ◌≡◌, ap, ◌∙◌, sym, ◌⊎◌, inl, inr, false, Option, none, some,
  arith, Bool-cases, Option-cases, subst,
}
use jauto_profiler_mcp.HashTab.{Bytes, HashEntry, keycmp, find_slot, lookup_from}
use jauto_profiler_mcp.HashTab.Probe.{keycmp→eq, keycmp_refl, next_slot, shift_slot}

module _ {V : Type 0} (t : ℕ → HashEntry V) (width : ℕ) (key : Bytes) where
  -- the slot holds another key
  abbrev pub Passes : ℕ → Type 0
  Passes s = (k : Bytes) × ((t s).key ≡ some k) × (keycmp k key ≡ false)

  -- a slot where the search of `hash_insert` ends
  abbrev pub Stops : ℕ → Type 0
  Stops s = ((t s).key ≡ none) ⊎ ((t s).key ≡ some key)

  find_slot_stop : (n s : ℕ) → Stops s → find_slot t width key (suc n) s ≡ some s
  unfolding find_slot
  find_slot_stop n s (inl free) = ground arith
  find_slot_stop n s (inr same) = ground (arith, keycmp_refl key)

  find_slot_pass :
      (n s : ℕ)
      → Passes s
      → find_slot t width key (suc n) s ≡ find_slot t width key n ((s + 1) % width)
  unfolding find_slot
  find_slot_pass n s (k, e, other) = ground arith

  lookup_from_hit : (n s : ℕ) → (t s).key ≡ some key → lookup_from t width key (suc n) s ≡ some s
  unfolding lookup_from
  lookup_from_hit n s same = ground (arith, keycmp_refl key)

  lookup_from_pass :
      (n s : ℕ)
      → Passes s
      → lookup_from t width key (suc n) s ≡ lookup_from t width key n ((s + 1) % width)
  unfolding lookup_from
  lookup_from_pass n s (k, e, other) = ground arith

  Slot-cases : (s : ℕ) → Stops s ⊎ Passes s
  Slot-cases s = elim (Option-cases (t s).key) [
    | inl free ↦ inl (inl free)
    | inr (k, e) ↦ elim (Bool-cases (keycmp k key)) [
      | inl same ↦ inl (inr (e ∙ ap some (keycmp→eq k key same)))
      | inr other ↦ inr (k, e, other)
    ]
  ]

  here : (p : ℕ) → (p + 0) % width ≡ p % width
  here p = ap (λ s. s % width) (omega arith)

  -- what the loop of `hash_insert` finds, `d` steps on
  pub record Finds (p d : ℕ) (r : Option ℕ) : Type 0 where
    pub result : r ≡ some ((p + d) % width)
    pub passed : (e : ℕ) → e < d → Passes ((p + e) % width)
    pub stop : Stops ((p + d) % width)

  Passes-before :
      (p d : ℕ)
      → Passes (p % width)
      → ((e : ℕ) → e < d → Passes ((p + 1 + e) % width))
      → (e : ℕ) → e < suc d
      → Passes ((p + e) % width)
  Passes-before p d first rest zero lt = subst Passes (sym (here p)) first
  Passes-before p d first rest (suc e) lt =
      subst Passes (shift_slot p e width) (rest e (omega arith))

  Finds-pass :
      (n p d : ℕ)
      → Passes (p % width)
      → Finds (p + 1) d (find_slot t width key n ((p + 1) % width))
      → Finds p (suc d) (find_slot t width key (suc n) (p % width))
  Finds-pass n p d pass f = record {
    result =
        find_slot_pass n (p % width) pass
        ∙ ap (find_slot t width key n) (next_slot p width)
        ∙ f.result
        ∙ ap some (shift_slot p d width);
    passed = Passes-before p d pass f.passed;
    stop = subst Stops (shift_slot p d width) f.stop;
  }

  stop_here : (n p : ℕ) → Stops (p % width) → Finds p 0 (find_slot t width key (suc n) (p % width))
  stop_here n p stop = record {
    result = find_slot_stop n (p % width) stop ∙ ap some (sym (here p));
    passed = λ e lt. absurd (omega arith);
    stop = subst Stops (sym (here p)) stop;
  }

  -- With an empty slot `m` steps on, the loop ends there or before.
  pub find_slot-Finds :
      (n p m : ℕ)
      → m < n
      → (t ((p + m) % width)).key ≡ none
      → (d : ℕ) × (d ≤ m) × Finds p d (find_slot t width key n (p % width))
  find_slot-Finds zero p m lt free = elim lt [ ]
  find_slot-Finds (suc n) p zero lt free =
      (0, omega arith, stop_here n p (inl (subst (λ s. (t s).key ≡ none) (here p) free)))
  find_slot-Finds (suc n) p (suc m) lt free = elim (Slot-cases (p % width)) [
    | inl stop ↦ (0, omega arith, stop_here n p stop)
    | inr pass ↦
        let (d, le, f) =
          find_slot-Finds n (p + 1) m (omega arith)
            (subst (λ s. (t s).key ≡ none) (sym (shift_slot p m width)) free) in
        (suc d, omega arith, Finds-pass n p d pass f)
  ]

  -- With the key `d` steps on, behind other keys, `ent_lookup` finds it.
  pub lookup_from_finds :
      (n p d : ℕ)
      → d < n
      → ((e : ℕ) → e < d → Passes ((p + e) % width))
      → (t ((p + d) % width)).key ≡ some key
      → lookup_from t width key n (p % width) ≡ some ((p + d) % width)
  lookup_from_finds zero p d lt passed hit = elim lt [ ]
  lookup_from_finds (suc n) p zero lt passed hit =
      lookup_from_hit n (p % width) (subst (λ s. (t s).key ≡ some key) (here p) hit)
      ∙ ap some (sym (here p))
  lookup_from_finds (suc n) p (suc d) lt passed hit =
      lookup_from_pass n (p % width) (subst Passes (here p) (passed 0 (omega arith)))
      ∙ ap (lookup_from t width key n) (next_slot p width)
      ∙ lookup_from_finds n (p + 1) d (omega arith)
          (λ e lt'. subst Passes (sym (shift_slot p e width)) (passed (suc e) (omega arith)))
          (subst (λ s. (t s).key ≡ some key) (sym (shift_slot p d width)) hit)
      ∙ ap some (shift_slot p d width)

  lookup_from_free : (n s : ℕ) → (t s).key ≡ none → lookup_from t width key (suc n) s ≡ none
  unfolding lookup_from
  lookup_from_free n s free = ground arith

  -- What `ent_lookup` finds holds the key.
  pub lookup_from_sound : (n s i : ℕ) → lookup_from t width key n s ≡ some i → (t i).key ≡ some key
  unfolding lookup_from
  lookup_from_sound zero s i h = cc
  lookup_from_sound (suc n) s i h = elim (Slot-cases s) [
    | inl (inl free) ↦ cc (lookup_from_free n s free)
    | inl (inr same) ↦
        let e : s ≡ i = cc (lookup_from_hit n s same) in subst (λ j. (t j).key ≡ some key) e same
    | inr pass ↦ lookup_from_sound n ((s + 1) % width) i (sym (lookup_from_pass n s pass) ∙ h)
  ]
