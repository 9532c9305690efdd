-- ===== src/DynArr/Without.antt =====
-- dyn-arr.c: the elements of an array that do not pass a test, which other removals leave there.
use jauto_profiler_mcp.Prelude.{
  ℕ, zero, suc, ◌+◌, ◌≤◌, ◌<◌, ◌≡◌, refl, ap, ◌∙◌, Bool, true, false, List, [], ◌∷◌, if◌then◌else◌,
  arith,
}
use jauto_profiler_mcp.DynArr.{DynArr}
use jauto_profiler_mcp.DynArr.Items.{from, items, remove_nth}

module _ {A : Type 0} (test : A → Bool) where
  -- a list without the elements that pass
  unfoldable pub without : List A → List A
  without [] = []
  without (x ∷ xs) = let rest = without xs in if test x then rest else x ∷ rest

  without-remove_nth :
      (f : ℕ → A) (i s n : ℕ)
      → i < n
      → test (f (s + i)) ≡ true
      → without (remove_nth i (from f s n)) ≡ without (from f s n)
  unfolding without from
  without-remove_nth f i s zero lt hit = absurd (omega arith)
  without-remove_nth f zero s (suc n) lt hit =
      rw (ap (λ x. test (f x)) {x = s} {y = s + 0} (omega arith) ∙ hit) refl
  without-remove_nth f (suc i) s (suc n) lt hit =
      ap (λ r. if test (f s) then r else f s ∷ r)
        (without-remove_nth f i (s + 1) n (omega arith)
          (ap (λ x. test (f x)) {x = s + 1 + i} {y = s + suc i} (omega arith) ∙ hit))

  without-none :
      (f : ℕ → A) (s n : ℕ)
      → ((j : ℕ) → s ≤ j → j < s + n → test (f j) ≡ false)
      → without (from f s n) ≡ from f s n
  unfolding without from
  without-none f s zero h = refl
  without-none f s (suc n) h =
      rw (h s (omega arith) (omega arith))
        (ap (λ r. f s ∷ r) (without-none f (s + 1) n (λ j lo hi. h j (omega arith) (omega arith))))

  pub without-items_removed :
      (a : DynArr A) (k : ℕ)
      → k < a.len
      → test (a.arr k) ≡ true
      → without (remove_nth k (items a)) ≡ without (items a)
  unfolding items
  without-items_removed a k lt hit =
      without-remove_nth a.arr k 0 a.len lt
        (ap (λ x. test (a.arr x)) {x = 0 + k} {y = k} (omega arith) ∙ hit)

  pub without-items_none :
      (a : DynArr A)
      → ((j : ℕ) → 0 ≤ j → j < 0 + a.len → test (a.arr j) ≡ false)
      → without (items a) ≡ items a
  unfolding items
  without-items_none a h = without-none a.arr 0 a.len h
