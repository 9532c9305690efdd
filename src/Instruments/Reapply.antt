-- ===== src/Instruments/Reapply.antt =====
-- instrument-handler.c: the instruments of a class that is loaded again.
use jauto_profiler_mcp.Prelude.{
  ℕ, zero, suc, ◌+◌, Bool, true, false, not, ◌&&◌, ◌||◌, Option, none, some, ◌==◌, ltb,
}
use jauto_profiler_mcp.HashTab.{Bytes, keycmp}
use jauto_profiler_mcp.ClassInfo.{
  InstrumentedLine, InstrumentType, instrument_enter, instrument_exit,
}
use jauto_profiler_mcp.MasterInstruments.{MiEntry, mi_method, mi_line, mi_var_bind}
use jauto_profiler_mcp.Instruments.{
  Jvm, Action, pure, crash, gets, ◌>>=◌, ◌>>◌, when, class_of, remove_instrument, find_instrument,
  find_class, jni_remove_profiler, do_instrumentation, retransform_pending, prof_err_log_printf,
  clear_instruments,
}
use jauto_profiler_mcp.Instruments.Apply.{remove_line}

abbrev pub is_enter : InstrumentType → Bool
is_enter instrument_enter = true
is_enter instrument_exit = false

module _ (jvm : Jvm) where
  -- `cleanup_dangling` on a class and a line
  unfoldable pub clean_other : Bytes → ℕ → Action (Unit {0})
  clean_other other_class other_line = do
    found ← find_class other_class
    elim found [
      | none ↦ pure tt
      | some ci ↦ do
        _ ← remove_line ci other_line
        c ← gets (λ s. class_of s ci)
        new_bc ← do_instrumentation jvm c
        elim new_bc [
          | none ↦ pure tt
          | some bc ↦ do _ ← retransform_pending jvm other_class c.loader none bc none; pure tt
        ]
    ]

  -- `cleanup_dangling` for the other side of a line of type `type`
  unfoldable pub cleanup_dangling : Bytes → Bytes → ℕ → ℕ → InstrumentType → Action (Unit {0})
  unfolding clean_other
  cleanup_dangling entry_class exit_class entry_line exit_line instrument_enter =
      clean_other exit_class exit_line
  cleanup_dangling entry_class exit_class entry_line exit_line instrument_exit =
      clean_other entry_class entry_line

  -- the end of `cleanup_failed_line`
  unfoldable pub drop_line : Bool → ℕ → ℕ → Action (Unit {0})
  drop_line drop instrument_id profiler_id =
      when drop
        (do remove_instrument instrument_id; _ ← jni_remove_profiler jvm profiler_id; pure tt)

  -- `cleanup_failed_line` on the entry that was found
  unfoldable pub cleanup_entry : Option MiEntry → InstrumentedLine → Action (Unit {0})
  unfolding cleanup_dangling drop_line
  cleanup_entry none line = drop_line (is_enter line.type) line.instrument_id line.profiler_id
  cleanup_entry (some (mi_method c m d)) line = crash
  cleanup_entry (some (mi_var_bind c v l d)) line = crash
  cleanup_entry (some (mi_line c x a b d e)) line = do
    when (not (keycmp c x)) (cleanup_dangling c x a b line.type)
    drop_line (is_enter line.type || not (keycmp c x)) line.instrument_id line.profiler_id

  -- `cleanup_failed_line`
  unfoldable pub cleanup_failed_line : InstrumentedLine → Action (Unit {0})
  unfolding cleanup_entry
  cleanup_failed_line line = do entry ← find_instrument line.instrument_id; cleanup_entry entry line

  -- the first loop at the label `fail` of `ih_reapply_instruments`, from `i` with `n` rounds left
  unfoldable pub drop_methods : ℕ → ℕ → ℕ → Action (Unit {0})
  drop_methods zero i ci = pure tt
  drop_methods (suc n) i ci = do
    c ← gets (λ s. class_of s ci)
    when (ltb i c.instrumented.len) (do
      remove_instrument (c.instrumented.arr i).instrument_id
      _ ← jni_remove_profiler jvm (c.instrumented.arr i).profiler_id
      pure tt)
    drop_methods n (i + 1) ci

  -- the second loop
  unfoldable pub drop_lines : ℕ → ℕ → ℕ → Action (Unit {0})
  unfolding cleanup_failed_line
  drop_lines zero i ci = pure tt
  drop_lines (suc n) i ci = do
    c ← gets (λ s. class_of s ci)
    when (ltb i c.lines.len) (cleanup_failed_line (c.lines.arr i))
    drop_lines n (i + 1) ci

  -- the label `fail` of `ih_reapply_instruments`; the loops take as many rounds as the arrays are
  -- long at first, and neither grows
  unfoldable pub remove_all : ℕ → Action (Unit {0})
  unfolding drop_methods drop_lines
  remove_all ci = do
    prof_err_log_printf jvm
    c ← gets (λ s. class_of s ci)
    drop_methods c.instrumented.len 0 ci
    drop_lines c.lines.len 0 ci
    clear_instruments jvm ci

  -- `ih_reapply_instruments`
  unfoldable pub ih_reapply_instruments : ℕ → Action (Unit {0})
  unfolding remove_all
  ih_reapply_instruments ci = do
    c ← gets (λ s. class_of s ci)
    when (not (c.instrumented.len == 0 && c.lines.len == 0)) (do
      new_bc ← do_instrumentation jvm c
      elim new_bc [
        | none ↦ remove_all ci
        | some bc ↦ do
          ret ← retransform_pending jvm c.name c.loader none bc none
          when (not ret) (remove_all ci)
      ])
