-- ===== src/HashTab/Copy.antt =====
-- hash-tab.c: the loop of `rehash`, which copies a chain of entries into another table.
use jauto_profiler_mcp.Prelude.{
  ℕ, suc, ◌+◌, ◌<◌, ◌≡◌, refl, ap, ◌∙◌, sym, ◌≢◌, inl, inr, true, List, [], ◌∷◌, ◌++◌, Option, none,
  some, ◌==◌, arith, Bool-cases, Option-cases, length, subst, fun_ext, ==_iff,
}
use jauto_profiler_mcp.HashTab.{Bytes, HashEntry, HashTab, keycmp, hash_insert, copy_entries}
use jauto_profiler_mcp.HashTab.Probe.{is_some, keycmp→eq, keycmp_refl}
use jauto_profiler_mcp.HashTab.Order.{times, IsNodup, first, succ_in}
use jauto_profiler_mcp.HashTab.Valid.{IsValid}
use jauto_profiler_mcp.HashTab.View.{view, updated}
use jauto_profiler_mcp.HashTab.Put.{With, hash_insert-With}

-- The slot behind a prefix of the list.
pub succ_in-append : (pre l : List ℕ) (a : ℕ) → times a pre ≡ 0 → succ_in a (pre ++ a ∷ l) ≡ first l
succ_in-append [] l a h = ground arith
succ_in-append (b ∷ []) l a h = ground arith
succ_in-append (b ∷ c ∷ pre) l a h = ground (arith, succ_in-append (c ∷ pre) l a)

pub times-append : (a : ℕ) (xs ys : List ℕ) → times a (xs ++ ys) ≡ times a xs + times a ys
times-append a [] ys = omega arith
times-append a (x ∷ xs) ys = omega (arith, times-append a xs ys)

module _ {V : Type 0} (old : ℕ → HashEntry V) where
  -- the entries of `l` are occupied, with different keys, and follow each other by `next`
  pub record Chain (l : List ℕ) : Type 0 where
    pub nodup : IsNodup l
    pub occupied : (s : ℕ) → 0 < times s l → is_some (old s).key ≡ true
    pub unique :
        (s r : ℕ) (k : Bytes)
        → 0 < times s l
        → 0 < times r l
        → (old s).key ≡ some k
        → (old r).key ≡ some k
        → s ≡ r
    pub next_is : (a : ℕ) (pre post : List ℕ) → l ≡ pre ++ a ∷ post → (old a).next ≡ first post

  pub Chain-tail : (a : ℕ) (l : List ℕ) → Chain (a ∷ l) → Chain l
  Chain-tail a l c = record {
    nodup = λ s. omega (arith, c.nodup s);
    occupied = λ s h. c.occupied s (omega arith);
    unique = λ s r k hs hr. c.unique s r k (omega arith) (omega arith);
    next_is = λ b pre post e. c.next_is b (a ∷ pre) post (ap (λ x. a ∷ x) e);
  }

  -- the map `f` with the entries of `l` set, one after the other
  abbrev pub copied : List ℕ → (Bytes → Option (Option V)) → Bytes → Option (Option V)
  copied [] f k = f k
  copied (a ∷ l) f k = elim (old a).key [
    | none ↦ copied l f k
    | some ka ↦ copied l (updated f ka (some (old a).val)) k
  ]

  pub copied_other :
      (l : List ℕ) (f : Bytes → Option (Option V)) (k : Bytes)
      → ((s : ℕ) → 0 < times s l → (old s).key ≢ some k)
      → copied l f k ≡ f k
  copied_other [] f k h = refl
  copied_other (a ∷ l) f k h = elim (Option-cases (old a).key) [
    | inl e ↦ rw (e, copied) (copied_other l f k (λ s hs. h s (omega arith)))
    | inr (ka, e) ↦
        rw (e, copied)
          (copied_other l (updated f ka (some (old a).val)) k (λ s hs. h s (omega arith))
            ∙ elim (Bool-cases (keycmp ka k)) [
              | inl same ↦ absurd (h a (ground arith) (e ∙ ap some (keycmp→eq ka k same)))
              | inr other ↦ rw other refl
            ])
  ]

  pub copied_held :
      (l : List ℕ) (f : Bytes → Option (Option V)) (k : Bytes) (s : ℕ)
      → Chain l
      → 0 < times s l
      → (old s).key ≡ some k
      → copied l f k ≡ some (old s).val
  copied_held [] f k s c h at = elim h [ ]
  copied_held (a ∷ l) f k s c h at = elim (Bool-cases (a == s)) [
    | inl e ↦
        let same : a ≡ s = (==_iff a s).0 e in
        rw (subst (λ x. (old x).key ≡ some k) (sym same) at, copied)
          (copied_other l (updated f k (some (old a).val)) k
              (λ r hr there. ground (arith, c.unique s r k, c.nodup s))
            ∙ rw (keycmp_refl k) (ap (λ x. some (old x).val) same))
    | inr e ↦ elim (Option-cases (old a).key) [
      | inl free ↦ rw (free, copied) (copied_held l f k s (Chain-tail a l c) (ground arith) at)
      | inr (ka, ea) ↦
          rw (ea, copied)
            (copied_held l (updated f ka (some (old a).val)) k s (Chain-tail a l c) (ground arith)
              at)
    ]
  ]

  -- the table `u` is `t` with the entries of `l`
  pub record Copied (t : HashTab V) (l : List ℕ) (u : HashTab V) : Type 0 where
    pub valid : IsValid u
    pub view_is : (k : Bytes) → view u k ≡ copied l (view t) k
    pub count_is : u.count ≡ t.count + length l
    pub same_capacity : u.capacity ≡ t.capacity

  copy_round :
      (f a : ℕ) (l : List ℕ) (t t' : HashTab V) (k : Bytes) (prev : Option V)
      → (old a).key ≡ some k
      → (old a).next ≡ first l
      → hash_insert t k (old a).val ≡ some (t', prev)
      → copy_entries (suc f) old (some a) t ≡ copy_entries f old (first l) t'
  unfolding copy_entries
  copy_round f a l t t' k prev held next inserting =
      rw (held, copy_entries) (rw inserting (rw next refl))

  Copied-cons :
      (a : ℕ) (l : List ℕ) (t t' u : HashTab V) (k : Bytes) (prev : Option V)
      → (old a).key ≡ some k
      → view t k ≡ none
      → With t k (old a).val t' prev
      → Copied t' l u
      → Copied t (a ∷ l) u
  Copied-cons a l t t' u k prev held fresh w c = record {
    valid = c.valid;
    view_is = λ k'.
        c.view_is k' ∙ ap (λ f. copied l f k') (fun_ext w.view_is) ∙ sym (rw (held, copied) refl);
    count_is = ground (arith, c.count_is, w.count_is, fresh);
    same_capacity = c.same_capacity ∙ w.same_capacity;
  }

  -- The loop copies the chain into a table that has none of its keys.
  pub copy_entries-Copied :
      (l : List ℕ) (t : HashTab V)
      → Chain l
      → IsValid t
      → t.count + length l < t.capacity
      → ((s : ℕ) (k : Bytes) → 0 < times s l → (old s).key ≡ some k → view t k ≡ none)
      → (u : HashTab V) × (copy_entries (length l) old (first l) t ≡ some u) × Copied t l u
  copy_entries-Copied [] t c v room fresh = (
    t,
    unfold copy_entries in refl,
    record { valid = v; view_is = λ k. refl; count_is = omega arith; same_capacity = refl },
  )
  copy_entries-Copied (a ∷ l) t c v room fresh = elim (Option-cases (old a).key) [
    | inl e ↦ absurd (ground (arith, c.occupied a))
    | inr (k, held) ↦
        let new = fresh a k (ground arith) held in
        let (t', prev, inserting, w) = hash_insert-With t v k (old a).val (omega arith) in
        let (u, rest, done) =
          copy_entries-Copied l t' (Chain-tail a l c) w.valid
            (ground (arith, w.count_is, new, w.same_capacity)) (still_fresh k t' prev held w) in
        (
          u,
          copy_round (length l) a l t t' k prev held (c.next_is a [] l refl) inserting ∙ rest,
          Copied-cons a l t t' u k prev held new w done,
        )
  ]
    where
      still_fresh :
          (k : Bytes) (t' : HashTab V) (prev : Option V)
          → (old a).key ≡ some k
          → With t k (old a).val t' prev
          → (s : ℕ) (k' : Bytes) → 0 < times s l
          → (old s).key ≡ some k'
          → view t' k' ≡ none
      still_fresh k t' prev held w s k' hs at = w.view_is k' ∙ elim (Bool-cases (keycmp k k')) [
        | inl same ↦
            absurd (ground (arith, c.unique a s k, c.nodup a, held, at, keycmp→eq k k' same))
        | inr other ↦ rw other (fresh s k' (omega arith) at)
      ]
