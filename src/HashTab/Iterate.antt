-- ===== src/HashTab/Iterate.antt =====
-- hash-tab.c: the iterator, against the finite map that the table stands for.
use jauto_profiler_mcp.Prelude.{
  ℕ, suc, ◌<◌, ◌≡◌, refl, ap, ◌∙◌, sym, inl, inr, List, [], ◌∷◌, Option, none, some, arith,
  Bool-cases, Option-cases, if◌then◌else◌, length, map, ◌==◌, subst, ==_iff,
}
use jauto_profiler_mcp.HashTab.{
  Bytes, HashTab, keycmp, hash_tab_size, hash_tab_itr_init, hash_tab_iterate, hash_tab_entries,
}
use jauto_profiler_mcp.HashTab.Probe.{keycmp→eq, keycmp_refl}
use jauto_profiler_mcp.HashTab.Order.{times, first}
use jauto_profiler_mcp.HashTab.Links.{keys}
use jauto_profiler_mcp.HashTab.Valid.{IsValid}
use jauto_profiler_mcp.HashTab.View.{view, view_held, view_absent, View-cases}
use jauto_profiler_mcp.HashTab.Copy.{Chain, Chain-tail}
use jauto_profiler_mcp.HashTab.Rehash.{order-Chain}

module _ {V : Type 0} where
  -- the values that stand beside a key
  unfoldable pub values_of : Bytes → List (Option Bytes × Option V) → List (Option V)
  values_of k [] = []
  values_of k ((none, v) ∷ es) = values_of k es
  values_of k ((some x, v) ∷ es) =
      let rest = values_of k es in if keycmp x k then v ∷ rest else rest

  -- one value or none, as a list
  abbrev pub listed : Option (Option V) → List (Option V)
  listed none = []
  listed (some v) = v ∷ []

  abbrev entry_at : HashTab V → ℕ → Option Bytes × Option V
  entry_at t s = ((t.tab s).key, (t.tab s).val)

  values_absent :
      (t : HashTab V) (k : Bytes) (l : List ℕ)
      → ((s : ℕ) → 0 < times s l → keys t s ≡ some k → ⊥)
      → values_of k (map (entry_at t) l) ≡ []
  unfolding values_of
  values_absent t k [] h = refl
  values_absent t k (a ∷ l) h = elim (Option-cases (keys t a)) [
    | inl e ↦ rw e (values_absent t k l (λ s hs. h s (omega arith)))
    | inr (x, e) ↦ rw e (elim (Bool-cases (keycmp x k)) [
      | inl same ↦ absurd (h a (ground arith) (e ∙ ap some (keycmp→eq x k same)))
      | inr other ↦ rw other (values_absent t k l (λ s hs. h s (omega arith)))
    ])
  ]

  values_held :
      (t : HashTab V) (k : Bytes) (s : ℕ) (l : List ℕ)
      → Chain t.tab l
      → 0 < times s l
      → keys t s ≡ some k
      → values_of k (map (entry_at t) l) ≡ (t.tab s).val ∷ []
  unfolding values_of
  values_held t k s [] c h at = elim h [ ]
  values_held t k s (a ∷ l) c h at = elim (Bool-cases (a == s)) [
    | inl e ↦
        let same : a ≡ s = (==_iff a s).0 e in
        rw (subst (λ x. keys t x ≡ some k) (sym same) at) (
          rw (keycmp_refl k) (
            ap (λ x. x ∷ values_of k (map (entry_at t) l)) (ap (λ x. (t.tab x).val) same)
            ∙ ap (λ r. (t.tab s).val ∷ r)
                (values_absent t k l (λ r hr there. ground (arith, c.unique s r k, c.nodup s)))))
    | inr e ↦ elim (Option-cases (keys t a)) [
      | inl free ↦ rw free (values_held t k s l (Chain-tail t.tab a l c) (ground arith) at)
      | inr (x, ea) ↦ rw ea (elim (Bool-cases (keycmp x k)) [
        | inl same ↦ absurd (ground (arith, c.unique a s k, keycmp→eq x k same))
        | inr other ↦ rw other (values_held t k s l (Chain-tail t.tab a l c) (ground arith) at)
      ])
    ]
  ]

  entries-Chain :
      (t : HashTab V) (l : List ℕ)
      → Chain t.tab l
      → hash_tab_entries (suc (length l)) t (first l) ≡ map (entry_at t) l
  unfolding hash_tab_entries hash_tab_iterate
  entries-Chain t [] c = refl
  entries-Chain t (a ∷ l) c =
      ap (λ r. entry_at t a ∷ r)
        (ap (hash_tab_entries (suc (length l)) t) (c.next_is a [] l refl)
          ∙ entries-Chain t l (Chain-tail t.tab a l c))

  length-map_entries : (t : HashTab V) (l : List ℕ) → length (map (entry_at t) l) ≡ length l
  length-map_entries t [] = refl
  length-map_entries t (a ∷ l) = ap suc (length-map_entries t l)

  module _ (t : HashTab V) (ok : IsValid t) where
    entries-order :
        hash_tab_entries (suc (hash_tab_size t)) t (hash_tab_itr_init t) ≡ map (entry_at t) ok.order
    unfolding hash_tab_size hash_tab_itr_init
    entries-order =
        ap (λ n. hash_tab_entries (suc n) t t.head) ok.core.counted
        ∙ ap (hash_tab_entries (suc (length ok.order)) t) ok.core.head_first
        ∙ entries-Chain t ok.order (order-Chain t ok)

    -- Iterating over a valid table until NULL, which takes one round more than its size, yields as
    -- many entries as its size says, and for each key the one value that it stands for, or none.
    pub hash_tab_entries-view :
        (length (hash_tab_entries (suc (hash_tab_size t)) t (hash_tab_itr_init t))
          ≡ hash_tab_size t)
        × ((k : Bytes)
            → values_of k (hash_tab_entries (suc (hash_tab_size t)) t (hash_tab_itr_init t))
              ≡ listed (view t k))
    unfolding hash_tab_size
    hash_tab_entries-view = (
      ap length entries-order ∙ length-map_entries t ok.order ∙ sym ok.core.counted,
      λ k. ap (values_of k) entries-order ∙ elim (View-cases t ok k) [
        | inl (v, (s, at, is)) ↦
            values_held t k s ok.order (order-Chain t ok) (ground (arith, ok.core.tally s)) at
            ∙ sym (ap listed (view_held t ok k (t.tab s).val (s, at, refl)))
        | inr gone ↦
            values_absent t k ok.order (λ s hs at. gone (t.tab s).val (s, at, refl))
            ∙ sym (ap listed (view_absent t ok k gone))
      ],
    )
