-- ===== src/HashTab/Cluster.antt =====
-- hash-tab.c: the run of taken slots behind a removed entry. Only an entry of that run can lose its
-- path when an entry before it is removed.
use jauto_profiler_mcp.Prelude.{
  ℕ, zero, suc, ◌+◌, ◌-◌, ◌%◌, ◌≤◌, ◌<◌, ◌≡◌, ap, ◌∙◌, sym, ◌≢◌, ◌⊎◌, inl, inr, true, none, some,
  arith, Option-cases, subst, ℕ_discrete, dec_lt,
}
use native.Mathlib.Nat.{mod-add-mod}
use jauto_profiler_mcp.HashTab.{Bytes}
use jauto_profiler_mcp.HashTab.Probe.{Keys, is_some, Reach}

-- A bounded search for a value of `f`.
find_value : (f : ℕ → ℕ) (x n : ℕ) → ((e : ℕ) × (e < n) × (f e ≡ x)) ⊎ ((e : ℕ) → e < n → f e ≢ x)
find_value f x zero = inr (λ e lt. absurd (omega arith))
find_value f x (suc n) = elim (ℕ_discrete (f n) x) [
  | yes hit ↦ inl (n, omega arith, hit)
  | no miss ↦ elim (find_value f x n) [
    | inl (e, lt, hit) ↦ inl (e, omega arith, hit)
    | inr none_of ↦ inr (λ e lt hit. elim (ℕ_discrete e n) [
      | yes last ↦ miss (ap f (sym last) ∙ hit)
      | no earlier ↦ none_of e (omega arith) hit
    ])
  ]
]

-- the slots of the probe sequence from `j`, modulo the capacity
module _ (K : Keys) (j w : ℕ) where
  -- slots `a` to `e`, without `e`, are taken, and slot `e` is empty
  pub record Run (a e : ℕ) : Type 0 where
    pub before : a ≤ e
    pub taken : (m : ℕ) → a ≤ m → m < e → is_some (K ((j + m) % w)) ≡ true
    pub stop : K ((j + e) % w) ≡ none

  pub Run-from : (n a : ℕ) → K ((j + (a + n)) % w) ≡ none → (e : ℕ) × (e ≤ a + n) × Run a e
  Run-from zero a free = (
    a,
    omega arith,
    record {
      before = omega arith;
      taken = λ m lo hi. absurd (omega arith);
      stop = subst (λ x. K ((j + x) % w) ≡ none) (omega arith) free;
    },
  )
  Run-from (suc n) a free = elim (Option-cases (K ((j + a) % w))) [
    | inl e ↦ (
      a,
      omega arith,
      record { before = omega arith; taken = λ m lo hi. absurd (omega arith); stop = e },
    )
    | inr (k, e) ↦
        let (x, le, r) =
          Run-from n (a + 1) (subst (λ y. K ((j + y) % w) ≡ none) (omega arith) free) in
        (
          x,
          omega arith,
          record {
            before = omega (arith, r.before);
            taken = λ m lo hi. elim (ℕ_discrete m a) [
              | yes same ↦ ground arith
              | no later ↦ r.taken m (omega arith) hi
            ];
            stop = r.stop;
          },
        )
  ]

  -- The path of a reachable entry avoids slot `a`, or the entry lies in the run behind it.
  pub avoids_or_behind :
      (a e h s : ℕ) (k : Bytes)
      → K ((j + e) % w) ≡ none
      → a < e
      → K s ≡ some k
      → (r : Reach K w h s)
      → ((i : ℕ) → i < r.dist → (h + i) % w ≢ (j + a) % w)
        ⊎ ((m : ℕ) × (a < m) × (m < e) × (s ≡ (j + m) % w))
  avoids_or_behind a e h s k stop lt at r =
      elim (find_value (λ i. (h + i) % w) ((j + a) % w) r.dist) [
        | inr miss ↦ inl miss
        | inl (i, near, hit) ↦
            inr (a + (r.dist - i), omega arith, inside i near hit, there i near hit)
      ]
    where
      moved : (i l : ℕ) → (h + i) % w ≡ (j + a) % w → (h + (i + l)) % w ≡ (j + (a + l)) % w
      moved i l hit =
          ap (λ x. x % w) (omega arith)
          ∙ sym (mod-add-mod (h + i) w l)
          ∙ ap (λ x. (x + l) % w) hit
          ∙ mod-add-mod (j + a) w l
          ∙ ap (λ x. x % w) (omega arith)

      there : (i : ℕ) → i < r.dist → (h + i) % w ≡ (j + a) % w → s ≡ (j + (a + (r.dist - i))) % w
      there i near hit = r.at ∙ ap (λ x. (h + x) % w) (omega arith) ∙ moved i (r.dist - i) hit

      reached : (i : ℕ) → (h + i) % w ≡ (j + a) % w → (h + (i + (e - a))) % w ≡ (j + e) % w
      reached i hit = moved i (e - a) hit ∙ ap (λ x. (j + x) % w) (omega arith)

      inside : (i : ℕ) → i < r.dist → (h + i) % w ≡ (j + a) % w → a + (r.dist - i) < e
      inside i near hit = elim (dec_lt (a + (r.dist - i)) e) [
        | yes lt ↦ lt
        | no past ↦ absurd (elim (dec_lt (i + (e - a)) r.dist) [
          | yes on_path ↦ ground (arith, r.path (i + (e - a)) on_path, reached i hit)
          | no at_end ↦
              let same : i + (e - a) ≡ r.dist = omega arith in
              ground (arith, reached i hit, r.at, same)
        ])
      ]
