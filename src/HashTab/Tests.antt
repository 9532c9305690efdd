-- ===== src/HashTab/Tests.antt =====
-- hash-tab.c: runs on a small table, after the cases of the repository's hash-tab-suite.c.
use jauto_profiler_mcp.Prelude.{
  ℕ, zero, suc, ◌*◌, ◌≡◌, refl, Bool, true, [], ◌∷◌, Option, none, some, leb, arith, length, map,
  subst,
}
use jauto_profiler_mcp.HashTab.{
  Bytes, HashTab, blank, put, keycmp, hash_tab_add, hash_tab_remove, hash_tab_lookup,
  hash_tab_entries, hash_tab_itr_init, hash_tab_size,
}
use jauto_profiler_mcp.HashTab.Links.{Core, keys}
use jauto_profiler_mcp.HashTab.Probe.{Reach}
use jauto_profiler_mcp.HashTab.Valid.{IsValid}
use jauto_profiler_mcp.HashTab.View.{view}
use jauto_profiler_mcp.HashTab.Delete.{hash_tab_remove-Without, Without}
use jauto_profiler_mcp.HashTab.Map.{hash_tab_add-Outcome, Outcome}
use jauto_profiler_mcp.HashTab.Iterate.{hash_tab_entries-view, values_of, listed}

-- the first byte
abbrev first_byte : Bytes → ℕ
first_byte [] = 0
first_byte (b ∷ bs) = b

-- a load of three quarters
abbrev over_3_4 : ℕ → ℕ → Bool
over_3_4 c n = leb (3 * n) (4 * c)

-- a table with the keys 8 and 4, which share a home; the key 4 was added last
abbrev two : HashTab ℕ
two = record {
  capacity = 4;
  count = 2;
  hash_fn = first_byte;
  over_thresh = over_3_4;
  head = some 1;
  tab =
      put
        (put (λ i. blank) 0
          (record { next = none; prev = some 1; key = some (8 ∷ []); val = some 80 }))
        1 (record { next = some 0; prev = none; key = some (4 ∷ []); val = some 40 });
}

two-Core : Core two (1 ∷ 0 ∷ [])
two-Core = record {
  pos = omega arith;
  counted = refl;
  tally = λ s. ground arith;
  inside = λ s. ground arith;
  head_first = refl;
  next_succ = λ s. ground arith;
  prev_pred = λ s. ground arith;
  unique = λ s r k. ground arith;
}

Reach-0 : Reach (keys two) 4 8 0
Reach-0 = record { dist = 0; near = omega arith; at = refl; path = λ e lt. absurd (omega arith) }

Reach-1 : Reach (keys two) 4 4 1
Reach-1 = record { dist = 1; near = omega arith; at = refl; path = λ e lt. ground arith }

reaches : (s : ℕ) (k : Bytes) → keys two s ≡ some k → Reach (keys two) 4 (first_byte k) s
reaches zero k at =
    subst (λ x. Reach (keys two) 4 (first_byte x) 0) {x = 8 ∷ []} {y = k} (ground arith) Reach-0
reaches (suc zero) k at =
    subst (λ x. Reach (keys two) 4 (first_byte x) 1) {x = 4 ∷ []} {y = k} (ground arith) Reach-1
reaches (suc (suc s)) k at = absurd (ground arith)

two-IsValid : IsValid two
two-IsValid = record {
  order = 1 ∷ 0 ∷ [];
  core = two-Core;
  reaches = reaches;
  room = omega arith;
  thresh = λ c n e. ground arith;
}

-- The entry of the key 4 stands behind that of the key 8, which is removed.
hash_tab_remove_example :
    (u : HashTab ℕ) × (hash_tab_remove two (8 ∷ []) ≡ some (u, hash_tab_lookup two (8 ∷ [])))
    × Without two (8 ∷ []) u
hash_tab_remove_example = hash_tab_remove-Without two two-IsValid (8 ∷ [])

-- A third entry makes the table grow.
hash_tab_add_example :
    (u : HashTab ℕ) × (done : Bool) × (prev : Option ℕ) × (hash_tab_add true true two
        (12 ∷ [])
        (some 7)
      ≡ some (u, done, prev))
    × Outcome two two-IsValid (12 ∷ []) (some 7) true true u done prev
hash_tab_add_example = hash_tab_add-Outcome two two-IsValid (12 ∷ []) (some 7) true true

hash_tab_entries_example :
    (length (hash_tab_entries (suc (hash_tab_size two)) two (hash_tab_itr_init two))
      ≡ hash_tab_size two)
    × ((k : Bytes)
        → values_of k (hash_tab_entries (suc (hash_tab_size two)) two (hash_tab_itr_init two))
          ≡ listed (view two k))
hash_tab_entries_example = hash_tab_entries-view two two-IsValid

-- the table after an operation
abbrev table : Option (HashTab ℕ × Option ℕ) → HashTab ℕ
table none = two
table (some (t, x)) = t

-- The removal moves the entry of the key 4 to its home.
moves_back :
    map (keys (table (hash_tab_remove two (8 ∷ [])))) (0 ∷ 1 ∷ []) ≡ some (4 ∷ []) ∷ none ∷ []
unfolding hash_tab_remove keycmp
moves_back = refl
