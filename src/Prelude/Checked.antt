-- ===== src/Prelude/Checked.antt =====
-- Results of code that reads memory: an access out of bounds, an error that the code reports, or a
-- value; and what it takes that no access is out of bounds.
use Prim.Native.Nat.{ℕ, zero, suc, ◌+◌, ◌<◌, ◌≤◌}
use mathlib.Core.Path.{◌≡◌, refl, sym, ap, ◌∙◌}
use mathlib.Core.Bool.{Bool, true, false}
use mathlib.Core.Option.{none, some}
use mathlib.Core.List.{List, [], ◌∷◌, ◌++◌, append_assoc}
use native.Mathlib.Omega.{arith}
use jauto_profiler_mcp.Prelude.Lists.{length, get_elem?, length-append}

pub data Checked {ℓ} (A : Type ℓ) : Type ℓ where
  fault fail : Checked A
  ok : A → Checked A

pub data Done : Type 0 where
  done : Done

infixl 5 ◌>>=◌
abbrev pub ◌>>=◌ {ℓ κ} : {A : Type ℓ} {B : Type κ} → Checked A → (A → Checked B) → Checked B
fault >>= f = fault
fail >>= f = fail
ok a >>= f = f a

-- an early return with the error code
abbrev pub fail_if : Bool → Checked Done
fail_if true = fail
fail_if false = ok done

-- one byte of a buffer
abbrev pub read : List ℕ → ℕ → Checked ℕ
read buf i = elim (get_elem? buf i) [ none ↦ fault | some b ↦ ok b ]

-- `n` bytes of a buffer, as `memcpy` reads them
abbrev pub read_bytes : List ℕ → ℕ → ℕ → Checked (List ℕ)
read_bytes buf p zero = ok []
read_bytes buf p (suc n) = do b ← read buf p; bs ← read_bytes buf (p + 1) n; ok (b ∷ bs)

module _ {ℓ} {A : Type ℓ} where
  -- no access is out of bounds, and a value has the property
  abbrev pub IsSafe : (A → Type 0) → Checked A → Type 0
  IsSafe P fault = ⊥
  IsSafe P fail = Done
  IsSafe P (ok a) = P a

  -- every value
  abbrev pub Any : A → Type 0
  Any a = Done

module _ {ℓ κ} {A : Type ℓ} {B : Type κ} where
  pub IsSafe-bind :
      (P : A → Type 0) (Q : B → Type 0) (r : Checked A) (f : A → Checked B)
      → IsSafe P r
      → ((a : A) → P a → IsSafe Q (f a))
      → IsSafe Q (r >>= f)
  IsSafe-bind P Q fault f e h = elim e [ ]
  IsSafe-bind P Q fail f e h = done
  IsSafe-bind P Q (ok a) f p h = h a p

pub fail_if-IsSafe : (b : Bool) → IsSafe (λ d. b ≡ false) (fail_if b)
fail_if-IsSafe true = done
fail_if-IsSafe false = refl

pub read-IsSafe : (buf : List ℕ) (i : ℕ) → i < length buf → IsSafe Any (read buf i)
read-IsSafe [] i lt = absurd (omega arith)
read-IsSafe (b ∷ bs) zero lt = done
read-IsSafe (b ∷ bs) (suc i) lt = read-IsSafe bs i (omega arith)

pub read_bytes-IsSafe :
    (buf : List ℕ) (p n : ℕ) → p + n ≤ length buf → IsSafe Any (read_bytes buf p n)
read_bytes-IsSafe buf p zero le = done
read_bytes-IsSafe buf p (suc n) le =
    IsSafe-bind Any Any (read buf p) _ (read-IsSafe buf p (omega arith)) (λ b d.
      IsSafe-bind Any Any (read_bytes buf (p + 1) n) _
        (read_bytes-IsSafe buf (p + 1) n (omega arith)) (λ bs d'. done))

-- A test, and then a step that may rely on it.
pub guarded {ℓ} :
    {A : Type ℓ} (P : A → Type 0) (b : Bool) (f : Done → Checked A)
    → (b ≡ false → IsSafe P (f done))
    → IsSafe P (fail_if b >>= f)
guarded P true f h = done
guarded P false f h = h refl

-- Reading what was appended to a prefix.
pub read-append :
    (pre : List ℕ) (x : ℕ) (post : List ℕ) (i : ℕ)
    → i ≡ length pre
    → read (pre ++ x ∷ post) i ≡ ok x
read-append [] x post zero e = refl
read-append [] x post (suc i) e = absurd (omega arith)
read-append (y ∷ pre) x post zero e = absurd (omega arith)
read-append (y ∷ pre) x post (suc i) e = read-append pre x post i (omega arith)

pub read_bytes-append :
    (pre xs post : List ℕ) (p : ℕ)
    → p ≡ length pre
    → read_bytes (pre ++ (xs ++ post)) p (length xs) ≡ ok xs
read_bytes-append pre [] post p e = refl
read_bytes-append pre (x ∷ xs) post p e =
    ap
      (λ r.
        r >>= λ b. read_bytes (pre ++ x ∷ (xs ++ post)) (p + 1) (length xs) >>= λ bs. ok (b ∷ bs))
      (read-append pre x (xs ++ post) p e)
    ∙ ap (λ r. r >>= λ bs. ok (x ∷ bs))
        (ap (λ b. read_bytes b (p + 1) (length xs)) (sym (append_assoc pre (x ∷ []) (xs ++ post)))
          ∙ read_bytes-append (pre ++ x ∷ []) xs post (p + 1)
              (omega (arith, length-append pre (x ∷ []))))
