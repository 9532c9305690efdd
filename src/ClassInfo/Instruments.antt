-- ===== src/ClassInfo/Instruments.antt =====
-- class-info.c: taking an instrument out of a class.
use jauto_profiler_mcp.Prelude.{
  ℕ, ◌<◌, ◌≡◌, refl, ◌⊎◌, inl, inr, Bool, true, false, Option, none, some, ◌==◌, arith,
}
use jauto_profiler_mcp.HashTab.{Bytes, keycmp}
use jauto_profiler_mcp.DynArr.{DynArr, dynarr_remove}
use jauto_profiler_mcp.DynArr.Items.{items, remove_nth, IsValid, dynarr_remove-items}
use jauto_profiler_mcp.Queued.{find_from}
use jauto_profiler_mcp.Queued.Search.{FindsFirst, find_from-FindsFirst}
use jauto_profiler_mcp.ClassInfo.{
  ClassInfo, InstrumentedMethod, InstrumentedLine, ci_remove_instrumented_by_sig,
  ci_remove_instrumented_line,
}

-- The first element that passes a test can be removed, or none does.
abbrev pub FoundFirst : {A : Type 0} → (A → Bool) → DynArr A → ℕ → DynArr A → Type 0
FoundFirst test a k b =
    (k < a.len)
    × (test (a.arr k) ≡ true)
    × ((j : ℕ) → j < k → test (a.arr j) ≡ false)
    × IsValid b
    × (items b ≡ remove_nth k (items a))

pub found_first :
    {A : Type 0} (test : A → Bool) (a : DynArr A)
    → IsValid a
    → ((find_from test a.arr 0 a.len ≡ none) × ((j : ℕ) → j < a.len → test (a.arr j) ≡ false))
      ⊎ (k : ℕ) × (b : DynArr A) × (find_from test a.arr 0 a.len ≡ some k)
        × (dynarr_remove a k ≡ some b)
        × FoundFirst test a k b
found_first test a valid =
    from_result (find_from test a.arr 0 a.len) refl (find_from-FindsFirst test a.arr 0 a.len)
  where
    from_result :
        (r : Option ℕ)
        → find_from test a.arr 0 a.len ≡ r
        → FindsFirst test a.arr 0 a.len r
        → ((find_from test a.arr 0 a.len ≡ none) × ((j : ℕ) → j < a.len → test (a.arr j) ≡ false))
          ⊎ (k : ℕ) × (b : DynArr _) × (find_from test a.arr 0 a.len ≡ some k)
            × (dynarr_remove a k ≡ some b)
            × FoundFirst test a k b
    from_result none e h = inl (e, λ j lt. h j (omega arith) (omega arith))
    from_result (some k) e (lo, hi, hit, before) =
        let (b, run, ok, is) = dynarr_remove-items a valid k (omega arith) in
        inr (k, b, e, run, (omega arith, hit, (λ j lt. before j (omega arith) lt), ok, is))

-- Removing the instrument of a method by its signature finds none, and then no instrument has the
-- signature and the class is as it was, or it takes out the first with the signature, returns its
-- ids, and keeps the others in their order and the lines.
pub ci_remove_instrumented_by_sig_lem :
    (ci : ClassInfo) (method_sig : Bytes)
    → IsValid ci.instrumented
    → let same_sig = λ (m : InstrumentedMethod). keycmp m.method_sig method_sig in
      ((ci_remove_instrumented_by_sig ci method_sig ≡ some (ci, none))
        × ((j : ℕ) → j < ci.instrumented.len → same_sig (ci.instrumented.arr j) ≡ false))
      ⊎ (k : ℕ) × (b : DynArr InstrumentedMethod) × (ci_remove_instrumented_by_sig ci method_sig
          ≡ some (
            record ci { instrumented = b },
            some ((ci.instrumented.arr k).profiler_id, (ci.instrumented.arr k).instrument_id),
          ))
        × FoundFirst same_sig ci.instrumented k b
unfolding ci_remove_instrumented_by_sig
ci_remove_instrumented_by_sig_lem ci method_sig valid =
    elim (found_first (λ m. keycmp m.method_sig method_sig) ci.instrumented valid) [
      | inl (e, all) ↦ inl (rw (e, ci_remove_instrumented_by_sig) refl, all)
      | inr (k, b, e, run, found) ↦
          inr (k, b, rw (e, ci_remove_instrumented_by_sig) (rw run refl), found)
    ]

-- Removing the instrument of a line takes out the first with the line number, whichever instrument it
-- belongs to, and returns its profiler's id, or none has the number.
pub ci_remove_instrumented_line_lem :
    (ci : ClassInfo) (line_number : ℕ)
    → IsValid ci.lines
    → let same_line = λ (l : InstrumentedLine). l.line_number == line_number in
      ((ci_remove_instrumented_line ci line_number ≡ some (ci, none))
        × ((j : ℕ) → j < ci.lines.len → same_line (ci.lines.arr j) ≡ false))
      ⊎ (k : ℕ) × (b : DynArr InstrumentedLine) × (ci_remove_instrumented_line ci line_number
          ≡ some (record ci { lines = b }, some (ci.lines.arr k).profiler_id))
        × FoundFirst same_line ci.lines k b
unfolding ci_remove_instrumented_line
ci_remove_instrumented_line_lem ci line_number valid =
    elim (found_first (λ l. l.line_number == line_number) ci.lines valid) [
      | inl (e, all) ↦ inl (rw (e, ci_remove_instrumented_line) refl, all)
      | inr (k, b, e, run, found) ↦
          inr (k, b, rw (e, ci_remove_instrumented_line) (rw run refl), found)
    ]
