-- ===== src/DynArr/Items.antt =====
-- dyn-arr.c: an array as the list of its elements.
use jauto_profiler_mcp.Prelude.{
  ℕ, zero, suc, ◌+◌, ◌-◌, ◌*◌, ◌≤◌, ◌<◌, ◌≡◌, refl, ap, ◌∙◌, sym, ◌⊎◌, inl, inr, Bool, true, false,
  List, [], ◌∷◌, ◌++◌, none, some, ltb, leb, ◌==◌, if◌then◌else◌, arith, Bool-cases,
}
use jauto_profiler_mcp.DynArr.{DynArr, dynarr_add, dynarr_remove}

module _ {A : Type 0} where
  -- `n` elements from `s` on
  unfoldable pub from : (ℕ → A) → ℕ → ℕ → List A
  from f s zero = []
  from f s (suc n) = f s ∷ from f (s + 1) n

  unfoldable pub items : DynArr A → List A
  items a = from a.arr 0 a.len

  -- a list without the element at an index
  abbrev pub remove_nth : ℕ → List A → List A
  remove_nth i [] = []
  remove_nth zero (x ∷ xs) = xs
  remove_nth (suc i) (x ∷ xs) = x ∷ remove_nth i xs

  -- The array holds no more than its memory.
  abbrev pub IsValid : DynArr A → Type 0
  IsValid a = (a.len ≤ a.capacity) × (0 < a.capacity)

  cong2 : {x y : A} {xs ys : List A} → x ≡ y → xs ≡ ys → (x ∷ xs) ≡ (y ∷ ys)
  cong2 p q = cc

  from_congr :
      (f g : ℕ → A) (s t n : ℕ)
      → ((i : ℕ) → i < n → f (s + i) ≡ g (t + i))
      → from f s n ≡ from g t n
  unfolding from
  from_congr f g s t zero h = refl
  from_congr f g s t (suc n) h =
      cong2 (ap f zero_right ∙ h 0 (omega arith) ∙ ap g (sym zero_right')) (
        from_congr f g (s + 1) (t + 1) n
          (λ i lt. ap f (omega arith) ∙ h (i + 1) (omega arith) ∙ ap g (omega arith)))
    where
      zero_right : s ≡ s + 0
      zero_right = omega arith

      zero_right' : t ≡ t + 0
      zero_right' = omega arith

  from_snoc : (f : ℕ → A) (s n : ℕ) → from f s (suc n) ≡ from f s n ++ f (s + n) ∷ []
  unfolding from
  from_snoc f s zero = ap (λ i. f i ∷ []) (omega arith)
  from_snoc f s (suc n) =
      ap (λ r. f s ∷ r)
        (from_snoc f (s + 1) n ∙ ap (λ i. from f (s + 1) n ++ f i ∷ []) (omega arith))

  from-remove_nth :
      (f g : ℕ → A) (i s n : ℕ)
      → i ≤ n
      → ((j : ℕ) → j < i → g (s + j) ≡ f (s + j))
      → ((j : ℕ) → i ≤ j → j < n → g (s + j) ≡ f (s + j + 1))
      → from g s n ≡ remove_nth i (from f s (suc n))
  unfolding from
  from-remove_nth f g zero s n le low high =
      from_congr g f s (s + 1) n (λ j lt. high j (omega arith) lt ∙ ap f (omega arith))
  from-remove_nth f g (suc i) s zero le low high = absurd (omega arith)
  from-remove_nth f g (suc i) s (suc n) le low high =
      cong2 (ap g (omega arith) ∙ low 0 (omega arith) ∙ ap f (omega arith)) (
        from-remove_nth f g i (s + 1) n (omega arith)
          (λ j lt. ap g (omega arith) ∙ low (j + 1) (omega arith) ∙ ap f (omega arith))
          (λ j lo hi.
            ap g (omega arith) ∙ high (j + 1) (omega arith) (omega arith) ∙ ap f (omega arith)))

  module _ (a : DynArr A) (valid : IsValid a) where
    unfoldable written : (x : A) → ℕ → A
    written x i = if a.len == i then x else a.arr i

    items_snoc :
        (x : A) (cap : ℕ)
        → items (record { len = a.len + 1; capacity = cap; arr = written x }) ≡ items a ++ x ∷ []
    unfolding items written
    items_snoc x cap =
        ap (from (written x) 0) (omega arith)
        ∙ from_snoc (written x) 0 a.len
        ∙ ap (λ r. r ++ written x (0 + a.len) ∷ [])
            (from_congr (written x) a.arr 0 0 a.len (λ i lt. ground arith))
        ∙ ap (λ y. items a ++ y ∷ []) (ground arith)

    -- Adding to an array appends the element, whether or not the memory has to grow; it fails only
    -- if the memory has to grow and cannot.
    pub dynarr_add-items :
        (grow_ok : Bool) (x : A)
        → ((b : DynArr A) × (dynarr_add grow_ok a x ≡ some b)
            × IsValid b
            × (items b ≡ items a ++ x ∷ []))
          ⊎ (dynarr_add grow_ok a x ≡ none) × (a.len ≡ a.capacity) × (grow_ok ≡ false)
    unfolding dynarr_add written
    dynarr_add-items grow_ok x = elim (Bool-cases (leb a.capacity a.len)) [
      | inr e ↦ inl (_, rw e refl, (ground arith, ground arith), items_snoc x a.capacity)
      | inl e ↦ elim (Bool-cases grow_ok) [
        | inl good ↦
            inl
              (_, rw e (rw good refl), (ground arith, ground arith), items_snoc x (a.capacity * 2))
        | inr bad ↦ inr (rw e (rw bad refl), ground arith, bad)
      ]
    ]

    abbrev closed_gap : ℕ → ℕ → A
    closed_gap index i =
        if ltb i index then a.arr i else if ltb i (a.len - 1) then a.arr (i + 1) else a.arr i

    -- Removing an index of an array takes the element at that index out, and the others keep their
    -- order.
    pub dynarr_remove-items :
        (index : ℕ)
        → index < a.len
        → (b : DynArr A) × (dynarr_remove a index ≡ some b)
          × IsValid b
          × (items b ≡ remove_nth index (items a))
    unfolding dynarr_remove items
    dynarr_remove-items index lt = elim (Bool-cases (index + 1 == a.len)) [
      | inl e ↦ (
        record a { len = a.len - 1 },
        rw e refl,
        (omega arith, omega arith),
        from-remove_nth a.arr a.arr index 0 (a.len - 1) (ground arith) (λ j l. refl)
              (λ j lo hi. absurd (ground arith))
            ∙ ap (λ n. remove_nth index (from a.arr 0 n)) (omega arith),
      )
      | inr e ↦ (
        record a { len = a.len - 1; arr = closed_gap index },
        rw e (rw (is_less lt) refl),
        (omega arith, omega arith),
        from-remove_nth a.arr (closed_gap index) index 0 (a.len - 1) (ground arith)
              (λ j l. ground arith) (λ j lo hi. ground arith)
            ∙ ap (λ n. remove_nth index (from a.arr 0 n)) (omega arith),
      )
    ]
      where
        is_less : index < a.len → ltb index a.len ≡ true
        is_less l = ground arith
