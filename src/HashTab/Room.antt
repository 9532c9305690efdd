-- ===== src/HashTab/Room.antt =====
-- hash-tab.c: a table with fewer entries than slots has an empty slot on every probe sequence.
use native.Mathlib.Nat.{
  add-mod-mod, div-add-mod, mul-add-mod_self_left, mod-eq_of_lt, mod-lt, mod-add-mod,
  mod-eq-sub-mod,
}
use jauto_profiler_mcp.Prelude.{
  ℕ, zero, suc, ◌+◌, ◌-◌, ◌*◌, ◌/◌, ◌%◌, ◌≤◌, ◌<◌, ◌≡◌, refl, ap, ◌∙◌, sym, ◌⊎◌, inl, inr, true,
  List, [], ◌∷◌, none, arith, Option-cases, length, subst, dec_lt, ◌≢◌,
}
use jauto_profiler_mcp.HashTab.{HashTab}
use jauto_profiler_mcp.HashTab.Probe.{Keys, is_some}
use jauto_profiler_mcp.HashTab.Order.{times}
use jauto_profiler_mcp.HashTab.Links.{Core, keys}

-- how many entries of the list lie below `n`
total : List ℕ → ℕ → ℕ
total l zero = 0
total l (suc n) = times n l + total l n

total-nil : (n : ℕ) → total [] n ≡ 0
unfolding total
total-nil zero = refl
total-nil (suc n) = omega (arith, total-nil n)

total-cons : (a : ℕ) (l : List ℕ) (n : ℕ) → n ≤ a → total (a ∷ l) n ≡ total l n
unfolding total
total-cons a l zero h = refl
total-cons a l (suc n) h = ground (arith, total-cons a l n)

total-cons_le : (a : ℕ) (l : List ℕ) (n : ℕ) → total (a ∷ l) n ≤ suc (total l n)
unfolding total
total-cons_le a l zero = omega arith
total-cons_le a l (suc n) = ground (arith, total-cons a l n, total-cons_le a l n)

total-le-length : (l : List ℕ) (n : ℕ) → total l n ≤ length l
total-le-length [] n = omega (arith, total-nil n)
total-le-length (a ∷ l) n = omega (arith, total-cons_le a l n, total-le-length l n)

total_full : (l : List ℕ) (n : ℕ) → ((s : ℕ) → s < n → 0 < times s l) → n ≤ total l n
unfolding total
total_full l zero h = omega arith
total_full l (suc n) h =
    omega (arith, h n (omega arith), total_full l n (λ s lt. h s (omega arith)))

free_below :
    (K : Keys) (n : ℕ)
    → ((s : ℕ) × (s < n) × (K s ≡ none)) ⊎ ((s : ℕ) → s < n → is_some (K s) ≡ true)
free_below K zero = inr (λ s lt. absurd (omega arith))
free_below K (suc n) = elim (Option-cases (K n)) [
  | inl e ↦ inl (n, omega arith, e)
  | inr (k, e) ↦ elim (free_below K n) [
    | inl (s, lt, free) ↦ inl (s, omega arith, free)
    | inr held ↦ inr (λ s lt. ground (arith, held s))
  ]
]

-- Every slot lies on every probe sequence.
steps_to : (p s w : ℕ) → s < w → (m : ℕ) × (m < w) × ((p + m) % w ≡ s)
steps_to p s w lt = (
  (s + w - p % w) % w,
  mod-lt _ (omega arith),
  add-mod-mod p (s + w - p % w) w
      ∙ ap (λ k. k % w) around
      ∙ mul-add-mod_self_left w (p / w + 1) s
      ∙ mod-eq_of_lt lt,
)
  where
    around : p + (s + w - p % w) ≡ w * (p / w + 1) + s
    around = omega (arith, div-add-mod p w, mod-lt p {m = w} (omega arith))

-- The first `w` slots of a probe sequence are different.
pub slots_ne : (p e d w : ℕ) → e < d → d < w → (p + e) % w ≢ (p + d) % w
slots_ne p e d w before near same = elim (dec_lt ((p + e) % w + (d - e)) w) [
  | yes inside ↦ omega (arith, shifted, mod-eq_of_lt inside)
  | no around ↦ omega (
    arith,
    shifted,
    mod-lt (p + e) {m = w} (omega arith),
    mod-eq-sub-mod {n = (p + e) % w + (d - e)} {m = w} (omega arith),
    mod-eq_of_lt {n = (p + e) % w + (d - e) - w} {m = w}
        (omega (arith, mod-lt (p + e) {m = w} (omega arith))),
  )
]
  where
    shifted : (p + e) % w ≡ ((p + e) % w + (d - e)) % w
    shifted = same ∙ ap (λ k. k % w) (omega arith) ∙ sym (mod-add-mod (p + e) w (d - e))

module _ {V : Type 0} (t : HashTab V) (l : List ℕ) where
  pub free_ahead :
      Core t l
      → t.count < t.capacity
      → (p : ℕ) → (m : ℕ) × (m < t.capacity) × (keys t ((p + m) % t.capacity) ≡ none)
  free_ahead c room p = elim (free_below (keys t) t.capacity) [
    | inl (s, lt, free) ↦
        let (m, near, at) = steps_to p s t.capacity lt in
        (m, near, subst (λ r. keys t r ≡ none) (sym at) free)
    | inr held ↦ absurd (
        omega (
          arith,
          c.counted,
          total-le-length l t.capacity,
          total_full l t.capacity (λ s lt. ground (arith, c.tally s, held s)),
        ))
  ]
