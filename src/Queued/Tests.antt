-- ===== src/Queued/Tests.antt =====
-- queued-instrument.c and dyn-arr.c: a queue of two instruments.
use jauto_profiler_mcp.Prelude.{
  ℕ, ◌+◌, ◌<◌, ◌≡◌, ◌≢◌, ◌⊎◌, true, false, [], ◌∷◌, ◌++◌, none, some, arith,
}
use jauto_profiler_mcp.DynArr.{dynarr_add, dynarr_remove}
use jauto_profiler_mcp.DynArr.Items.{
  items, remove_nth, IsValid, dynarr_add-items, dynarr_remove-items,
}
use jauto_profiler_mcp.Queued.{
  QueuedInstr, QueuedInstrList, qi_line_enter, queued_instr_list_find_by_instrument_id,
  queued_instr_list_remove_and_destroy,
}
use jauto_profiler_mcp.Queued.Search.{find_by_instrument_id-remove}

abbrev line : ℕ → QueuedInstr
line id = record {
  instrument_id = id;
  profiler_id = some 0;
  class_name = 65 ∷ [];
  detail = qi_line_enter 10;
}

-- a full array with the instruments 5 and 6
abbrev two : QueuedInstrList
two = record { len = 2; capacity = 2; arr = λ i. line (5 + i) }

two-IsValid : IsValid two
two-IsValid = (omega arith, omega arith)

dynarr_add_example :
    ((b : QueuedInstrList) × (dynarr_add true two (line 9) ≡ some b)
      × IsValid b
      × (items b ≡ items two ++ line 9 ∷ []))
    ⊎ (dynarr_add true two (line 9) ≡ none) × (two.len ≡ two.capacity) × (true ≡ false)
dynarr_add_example = dynarr_add-items two two-IsValid true (line 9)

dynarr_remove_example :
    (b : QueuedInstrList) × (dynarr_remove two 0 ≡ some b)
    × IsValid b
    × (items b ≡ remove_nth 0 (items two))
dynarr_remove_example = dynarr_remove-items two two-IsValid 0 (omega arith)

find_by_instrument_id_example :
    ((queued_instr_list_find_by_instrument_id two 6 ≡ none)
      × ((j : ℕ) → j < two.len → (two.arr j).instrument_id ≢ 6))
    ⊎ ((k : ℕ) × (b : QueuedInstrList) × (queued_instr_list_find_by_instrument_id two 6 ≡ some k)
        × ((two.arr k).instrument_id ≡ 6)
        × ((j : ℕ) → j < k → (two.arr j).instrument_id ≢ 6)
        × (queued_instr_list_remove_and_destroy two k ≡ some b)
        × IsValid b
        × (items b ≡ remove_nth k (items two)))
find_by_instrument_id_example = find_by_instrument_id-remove two 6 two-IsValid
