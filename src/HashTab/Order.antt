-- ===== src/HashTab/Order.antt =====
-- hash-tab.c: the linked list of entries as the list of their slots, and what `next` and `prev`
-- are in terms of that list.
use jauto_profiler_mcp.Prelude.{
  ℕ, ◌+◌, ◌-◌, ◌≤◌, ◌<◌, ◌≡◌, refl, ◌≢◌, Bool, true, false, List, [], ◌∷◌, Option, none, some, ◌==◌,
  if◌then◌else◌, arith, length, Bool-cases, inl, inr,
}
use jauto_profiler_mcp.HashTab.{is_at}

abbrev pub to_nat : Bool → ℕ
to_nat true = 1
to_nat false = 0

-- how often `s` stands in the list
abbrev pub times : ℕ → List ℕ → ℕ
times s [] = 0
times s (a ∷ l) = to_nat (a == s) + times s l

abbrev pub IsNodup : List ℕ → Type 0
IsNodup l = (s : ℕ) → times s l ≤ 1

abbrev pub first : List ℕ → Option ℕ
first [] = none
first (a ∷ l) = some a

-- the slot behind `s`
abbrev pub succ_in : ℕ → List ℕ → Option ℕ
succ_in s [] = none
succ_in s (a ∷ l) = if a == s then first l else succ_in s l

-- the slot before `s`, where `p` stands before the list
abbrev pub pred_in : Option ℕ → ℕ → List ℕ → Option ℕ
pred_in p s [] = none
pred_in p s (a ∷ l) = if a == s then p else pred_in (some a) s l

abbrev pub remove : ℕ → List ℕ → List ℕ
remove s [] = []
remove s (a ∷ l) = if a == s then l else a ∷ remove s l

pub times-remove : (i s : ℕ) (l : List ℕ) → times s (remove i l) ≡ times s l - to_nat (i == s)
times-remove i s [] = ground arith
times-remove i s (a ∷ l) = ground (arith, times-remove i s l)

pub length-remove : (i : ℕ) (l : List ℕ) → 0 < times i l → length (remove i l) + 1 ≡ length l
length-remove i [] h = elim h [ ]
length-remove i (a ∷ l) h = ground (arith, length-remove i l)

pub first-remove : (i : ℕ) (l : List ℕ) → is_at (first l) i ≡ false → first (remove i l) ≡ first l
first-remove i [] h = refl
first-remove i (a ∷ l) h = ground arith

pub first-remove_self :
    (i : ℕ) (l : List ℕ) → is_at (first l) i ≡ true → first (remove i l) ≡ succ_in i l
first-remove_self i [] h = cc
first-remove_self i (a ∷ l) h = ground arith

pred_some : (a i : ℕ) (l : List ℕ) → 0 < times i l → (q : ℕ) × (pred_in (some a) i l ≡ some q)
pred_some a i [] h = absurd (omega arith)
pred_some a i (b ∷ l) h = elim (Bool-cases (b == i)) [
  | inl e ↦ (a, ground arith)
  | inr e ↦ let (q, r) = pred_some b i l (ground arith) in (q, ground arith)
]

-- A slot on the list that is not its head has one before it.
pub pred_in-some :
    (i : ℕ) (l : List ℕ)
    → 0 < times i l
    → is_at (first l) i ≡ false
    → (q : ℕ) × (pred_in none i l ≡ some q)
pred_in-some i [] h e = absurd (omega arith)
pred_in-some i (a ∷ l) h e = let (q, r) = pred_some a i l (ground arith) in (q, ground arith)

pub pred_in-first : (i : ℕ) (l : List ℕ) → is_at (first l) i ≡ true → pred_in none i l ≡ none
pred_in-first i [] h = refl
pred_in-first i (a ∷ l) h = ground arith

-- What stands in the list.
pub times-first : (i : ℕ) (l : List ℕ) → is_at (first l) i ≡ true → 0 < times i l
times-first i [] h = cc
times-first i (a ∷ l) h = ground arith

pub times-pred : (p q i : ℕ) (l : List ℕ) → pred_in (some p) i l ≡ some q → q ≢ p → 0 < times q l
times-pred p q i [] h ne = cc
times-pred p q i (a ∷ l) h ne = ground (arith, times-pred a q i l)

times-succ : (i n : ℕ) (l : List ℕ) → succ_in i l ≡ some n → 0 < times n l
times-succ i n [] h = cc
times-succ i n (a ∷ []) h = ground arith
times-succ i n (a ∷ b ∷ l) h = ground (arith, times-succ i n (b ∷ l))

IsNodup-tail : (a : ℕ) (l : List ℕ) → IsNodup (a ∷ l) → IsNodup l
IsNodup-tail a l nd x = omega (arith, nd x)

-- A slot behind `b` is not found before `b`.
pred_after :
    (b i s : ℕ) (l : List ℕ) → b ≢ s → times s l ≡ 0 → is_at (pred_in (some b) i l) s ≡ false
pred_after b i s [] ne none_of = refl
pred_after b i s (a ∷ l) ne none_of = ground (arith, pred_after a i s l)

pub succ_in-remove :
    (i s : ℕ) (p : Option ℕ) (l : List ℕ)
    → IsNodup l
    → i ≢ s
    → is_at p s ≡ false
    → 0 < times i l
    → 0 < times s l
    → succ_in s (remove i l) ≡ (if is_at (pred_in p i l) s then succ_in i l else succ_in s l)
succ_in-remove i s p [] nd ne np hi hs = elim hi [ ]
succ_in-remove i s p (a ∷ []) nd ne np hi hs = absurd (ground arith)
succ_in-remove i s p (a ∷ b ∷ l) nd ne np hi hs = ground (
  arith,
  nd s,
  nd i,
  pred_after b i s l,
  succ_in-remove i s (some a) (b ∷ l) (IsNodup-tail a (b ∷ l) nd) ne,
)

pub pred_in-remove :
    (i s : ℕ) (p : Option ℕ) (l : List ℕ)
    → IsNodup l
    → i ≢ s
    → 0 < times i l
    → 0 < times s l
    → pred_in p s (remove i l) ≡ (if is_at (succ_in i l) s then pred_in p i l else pred_in p s l)
pred_in-remove i s p [] nd ne hi hs = elim hi [ ]
pred_in-remove i s p (a ∷ l) nd ne hi hs =
    ground
      (arith, nd s, nd i, times-succ i s l, pred_in-remove i s (some a) l (IsNodup-tail a l nd) ne)
