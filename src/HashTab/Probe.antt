-- ===== src/HashTab/Probe.antt =====
-- hash-tab.c: probe sequences over the keys of the slots, apart from the code. The slots of a key
-- are `hash`, `hash + 1`, …, all modulo the capacity.
use native.Mathlib.Nat.{mod-add-mod}
use jauto_profiler_mcp.Prelude.{
  ℕ, suc, ◌+◌, ◌%◌, ◌<◌, ◌≡◌, refl, ap, Bool, true, false, [], ◌∷◌, Option, none, some, ◌==◌,
  if◌then◌else◌, arith,
}
use jauto_profiler_mcp.HashTab.{Bytes, keycmp}

pub keycmp→eq : (a b : Bytes) → keycmp a b ≡ true → a ≡ b
unfolding keycmp
keycmp→eq [] [] h = refl
keycmp→eq [] (b ∷ bs) h = cc
keycmp→eq (a ∷ as') [] h = cc
keycmp→eq (a ∷ as') (b ∷ bs) h = ground (arith, keycmp→eq as' bs)

pub keycmp_refl : (a : Bytes) → keycmp a a ≡ true
unfolding keycmp
keycmp_refl [] = refl
keycmp_refl (a ∷ rest) = ground (arith, keycmp_refl rest)

-- the keys of the slots
abbrev pub Keys : Type 0
Keys = ℕ → Option Bytes

abbrev pub is_some : Option Bytes → Bool
is_some none = false
is_some (some k) = true

abbrev pub update : Keys → ℕ → Option Bytes → Keys
update K i x j = if i == j then x else K j

-- Every slot from `p` on, `d` of them, is taken.
abbrev pub Taken : Keys → ℕ → ℕ → ℕ → Type 0
Taken K width p d = (e : ℕ) → e < d → is_some (K ((p + e) % width)) ≡ true

-- Slot `s` lies `d` steps behind the home of the hash `h`, and the slots before it are taken.
pub record Reach (K : Keys) (width h s : ℕ) : Type 0 where
  pub dist : ℕ
  pub near : dist < width
  pub at : s ≡ (h + dist) % width
  pub path : Taken K width h dist

-- A key stands in one slot only.
abbrev pub IsUnique : Keys → Type 0
IsUnique K = (s t : ℕ) (k : Bytes) → K s ≡ some k → K t ≡ some k → s ≡ t

-- the next slot, in the form that the code computes
pub next_slot : (p width : ℕ) → (p % width + 1) % width ≡ (p + 1) % width
next_slot p width = mod-add-mod p width 1

pub shift_slot : (p e width : ℕ) → (p + 1 + e) % width ≡ (p + suc e) % width
shift_slot p e width = ap (λ s. s % width) (omega arith)
