-- ===== src/EvQueue/Chain.antt =====
-- ev-queue.c: lists of nodes in the store.
use jauto_profiler_mcp.Prelude.{
  ℕ, ◌+◌, ◌≤◌, ◌<◌, ◌≡◌, refl, ap, List, [], ◌∷◌, ◌++◌, Option, none, some, arith, subst,
}
use jauto_profiler_mcp.HashTab.Order.{times}
use jauto_profiler_mcp.EvQueue.{EvNode, put, set_next}

-- the last address of a list that follows `p`
abbrev pub last_of : Option ℕ → List ℕ → Option ℕ
last_of p [] = p
last_of p (a ∷ l) = last_of (some a) l

pub times-last_of : (b t : ℕ) (l : List ℕ) → last_of (some b) l ≡ some t → 0 < times t (b ∷ l)
times-last_of b t [] e = ground arith
times-last_of b t (a ∷ l) e = ground (arith, times-last_of a t l e)

pub last-some : (a : ℕ) (l : List ℕ) → (t : ℕ) × (last_of (some a) l ≡ some t)
last-some a [] = (a, refl)
last-some a (b ∷ l) = last-some b l

pub last-snoc : (p : Option ℕ) (l : List ℕ) (n : ℕ) → last_of p (l ++ n ∷ []) ≡ some n
last-snoc p [] n = refl
last-snoc p (a ∷ l) n = last-snoc (some a) l n

pub times-append : (s : ℕ) (l m : List ℕ) → times s (l ++ m) ≡ times s l + times s m
times-append s [] m = omega arith
times-append s (a ∷ l) m = ground (arith, times-append s l m)

pub times-snoc :
    (n : ℕ) (l f : List ℕ)
    → ((s : ℕ) → times s l + times s f ≤ 1)
    → times n l + times n f ≡ 0
    → (s : ℕ) → times s (l ++ n ∷ []) + times s f ≤ 1
times-snoc n l f nd out s = ground (arith, times-append s l (n ∷ []), nd s)

module _ {D : Type 0} where
  -- from `p` the `next` pointers lead through the addresses `l` to NULL
  abbrev pub Chain : (ℕ → EvNode D) → Option ℕ → List ℕ → Type 0
  Chain h p [] = p ≡ none
  Chain h p (a ∷ l) = (p ≡ some a) × Chain h (h a).next l

  -- data and sizes of the nodes
  abbrev pub payload : (ℕ → EvNode D) → List ℕ → List (D × ℕ)
  payload h [] = []
  payload h (a ∷ l) = ((h a).data_, (h a).size) ∷ payload h l

  pub Chain-put :
      (h : ℕ → EvNode D) (n : ℕ) (x : EvNode D) (p : Option ℕ) (l : List ℕ)
      → times n l ≡ 0
      → Chain h p l
      → Chain (put h n x) p l
  Chain-put h n x p [] out c = c
  Chain-put h n x p (a ∷ l) out (e, c) = (
    e,
    subst (λ r. Chain (put h n x) r l) (ground arith)
        (Chain-put h n x (h a).next l (ground arith) c),
  )

  pub payload-put :
      (h : ℕ → EvNode D) (n : ℕ) (x : EvNode D) (l : List ℕ)
      → times n l ≡ 0
      → payload (put h n x) l ≡ payload h l
  payload-put h n x [] out = refl
  payload-put h n x (a ∷ l) out = ground (arith, payload-put h n x l)

  pub payload-put_self :
      (h : ℕ → EvNode D) (n : ℕ) (x : EvNode D)
      → payload (put h n x) (n ∷ []) ≡ (x.data_, x.size) ∷ []
  payload-put_self h n x = ground arith

  -- Pointers do not count for the payload.
  pub payload-set_next :
      (h : ℕ → EvNode D) (n : ℕ) (x : Option ℕ) (l : List ℕ)
      → payload (set_next h n x) l ≡ payload h l
  payload-set_next h n x [] = refl
  payload-set_next h n x (a ∷ l) = ground (arith, payload-set_next h n x l)

  pub payload-append :
      (h : ℕ → EvNode D) (l m : List ℕ) → payload h (l ++ m) ≡ payload h l ++ payload h m
  payload-append h [] m = refl
  payload-append h (a ∷ l) m = ap (λ r. ((h a).data_, (h a).size) ∷ r) (payload-append h l m)

  -- Linking a new node behind the last one.
  pub Chain-snoc :
      (h : ℕ → EvNode D) (n t : ℕ) (x : EvNode D) (p : Option ℕ) (l : List ℕ)
      → x.next ≡ none
      → Chain h p l
      → last_of none l ≡ some t
      → ((s : ℕ) → times s l ≤ 1)
      → times n l ≡ 0
      → Chain (set_next (put h n x) t (some n)) p (l ++ n ∷ [])
  Chain-snoc h n t x p [] end c e nd out = cc
  Chain-snoc h n t x p (a ∷ []) end (e0, c) e nd out = (e0, (ground arith, ground arith))
  Chain-snoc h n t x p (a ∷ b ∷ l) end (e0, c) e nd out =
      let inside = times-last_of b t l e in
      (
        e0,
        subst (λ r. Chain (set_next (put h n x) t (some n)) r (b ∷ l ++ n ∷ []))
            (ground (arith, nd t))
            (Chain-snoc h n t x (h a).next (b ∷ l) end c e (λ s. omega (arith, nd s))
              (ground arith)),
      )
