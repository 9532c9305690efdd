-- ===== src/Queued/Search.antt =====
-- queued-instrument.c: searching the queue and taking out what was found.
use jauto_profiler_mcp.Prelude.{
  ℕ, zero, suc, ◌+◌, ◌≤◌, ◌<◌, ◌≡◌, refl, ap, ◌∙◌, sym, ◌≢◌, ◌⊎◌, inl, inr, Bool, true, false,
  Option, none, some, ◌==◌, arith, Bool-cases, ==_iff, ℕ_discrete,
}
use jauto_profiler_mcp.DynArr.Items.{items, remove_nth, IsValid, dynarr_remove-items}
use jauto_profiler_mcp.Queued.{
  QueuedInstrList, find_from, queued_instr_list_find_by_instrument_id,
  queued_instr_list_remove_and_destroy,
}

-- the first index of `n` from `i` on that passes the test, or that none does
abbrev pub FindsFirst : {A : Type 0} → (A → Bool) → (ℕ → A) → ℕ → ℕ → Option ℕ → Type 0
FindsFirst test f i n none = (j : ℕ) → i ≤ j → j < i + n → test (f j) ≡ false
FindsFirst test f i n (some k) =
    (i ≤ k) × (k < i + n) × (test (f k) ≡ true) × ((j : ℕ) → i ≤ j → j < k → test (f j) ≡ false)

pub find_from-FindsFirst :
    {A : Type 0} (test : A → Bool) (f : ℕ → A) (i n : ℕ)
    → FindsFirst test f i n (find_from test f i n)
unfolding find_from
find_from-FindsFirst test f i zero = λ j lo hi. absurd (omega arith)
find_from-FindsFirst test f i (suc n) = elim (Bool-cases (test (f i))) [
  | inl e ↦ rw (e, FindsFirst) (omega arith, omega arith, e, λ j lo hi. absurd (omega arith))
  | inr e ↦
      rw (e, FindsFirst)
        (later e (find_from test f (i + 1) n) (find_from-FindsFirst test f (i + 1) n))
]
  where
    later :
        test (f i) ≡ false
        → (r : Option ℕ) → FindsFirst test f (i + 1) n r
        → FindsFirst test f i (suc n) r
    later e none h = λ j lo hi. elim (ℕ_discrete i j) [
      | yes same ↦ ap (λ x. test (f x)) (sym same) ∙ e
      | no other ↦ h j (omega arith) (omega arith)
    ]
    later e (some k) (lo, hi, hit, before) = (
      omega arith,
      omega arith,
      hit,
      λ j lo' hi'. elim (ℕ_discrete i j) [
        | yes same ↦ ap (λ x. test (f x)) (sym same) ∙ e
        | no other ↦ before j (omega arith) hi'
      ],
    )

-- Looking for the id of an instrument in the queue finds nothing, and then no entry has the id, or
-- the index of the first entry with the id. That index can be removed: the removal fails no
-- assertion, takes this entry out, and the others keep their order.
pub find_by_instrument_id-remove :
    (arr : QueuedInstrList) (id : ℕ)
    → IsValid arr
    → ((queued_instr_list_find_by_instrument_id arr id ≡ none)
        × ((j : ℕ) → j < arr.len → (arr.arr j).instrument_id ≢ id))
      ⊎ ((k : ℕ) × (b : QueuedInstrList) × (queued_instr_list_find_by_instrument_id arr id ≡ some k)
          × ((arr.arr k).instrument_id ≡ id)
          × ((j : ℕ) → j < k → (arr.arr j).instrument_id ≢ id)
          × (queued_instr_list_remove_and_destroy arr k ≡ some b)
          × IsValid b
          × (items b ≡ remove_nth k (items arr)))
unfolding queued_instr_list_find_by_instrument_id queued_instr_list_remove_and_destroy
find_by_instrument_id-remove arr id valid =
    from_result (find_from (λ q. q.instrument_id == id) arr.arr 0 arr.len) refl
      (find_from-FindsFirst (λ q. q.instrument_id == id) arr.arr 0 arr.len)
  where
    from_result :
        (r : Option ℕ)
        → find_from (λ q. q.instrument_id == id) arr.arr 0 arr.len ≡ r
        → FindsFirst (λ q. q.instrument_id == id) arr.arr 0 arr.len r
        → ((queued_instr_list_find_by_instrument_id arr id ≡ none)
            × ((j : ℕ) → j < arr.len → (arr.arr j).instrument_id ≢ id))
          ⊎ ((k : ℕ) × (b : QueuedInstrList) × (queued_instr_list_find_by_instrument_id arr id
                ≡ some k)
              × ((arr.arr k).instrument_id ≡ id)
              × ((j : ℕ) → j < k → (arr.arr j).instrument_id ≢ id)
              × (queued_instr_list_remove_and_destroy arr k ≡ some b)
              × IsValid b
              × (items b ≡ remove_nth k (items arr)))
    from_result none e h = inl (e, λ j lt same. ground (arith, h j (omega arith) (omega arith)))
    from_result (some k) e (lo, hi, hit, before) =
        let (b, run, ok, is) = dynarr_remove-items arr valid k (omega arith) in
        inr (
          k,
          b,
          e,
          (==_iff _ _).0 hit,
          λ j lt same. ground (arith, before j (omega arith) lt),
          run,
          ok,
          is,
        )
