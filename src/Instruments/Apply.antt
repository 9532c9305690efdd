-- ===== src/Instruments/Apply.antt =====
-- instrument-handler.c: putting an instrument into the classes that it is for.
use jauto_profiler_mcp.Prelude.{
  ◌-◌, ℕ, Bool, true, false, not, Option, none, some, ◌==◌, if◌then◌else◌,
}
use jauto_profiler_mcp.HashTab.{Bytes}
use jauto_profiler_mcp.ClassInfo.{
  instrument_enter, instrument_exit, instrumented_method_list_add_and_init,
  ci_add_instrumented_line, ci_remove_instrumented_by_sig, ci_remove_instrumented_line,
}
use jauto_profiler_mcp.MasterInstruments.{
  MiEntry, mi_method, mi_line, mi_var_bind, method_mark, line_entry_mark, line_exit_mark,
}
use jauto_profiler_mcp.Instruments.{
  Jvm, Action, pure, crash, gets, deref, ◌>>=◌, ◌>>◌, when, put_class, class_of, remove_instrument,
  find_instrument, mark_applied, malloc, jni_remove_profiler, do_instrumentation,
  retransform_pending,
}

-- enum instrument_resp_status
abbrev pub instrument_rp_ok : ℕ
instrument_rp_ok = 0

abbrev pub instrument_rp_double_instrument : ℕ
instrument_rp_double_instrument = 1

abbrev pub instrument_rp_error : ℕ
instrument_rp_error = 2

abbrev pub instrument_rp_deferred : ℕ
instrument_rp_deferred = 3

-- `entry->method.method_name`
abbrev pub method_name : MiEntry → Action Bytes
method_name (mi_method c m d) = pure m
method_name e = crash

-- `entry->line`: the class of the exit and the two line numbers
abbrev pub line_of : MiEntry → Action (Bytes × ℕ × ℕ)
line_of (mi_line c x a b d e) = pure (x, a, b)
line_of e = crash

abbrev pub is_method : MiEntry → Bool
is_method (mi_method c m d) = true
is_method (mi_line c x a b d e) = false
is_method (mi_var_bind c v l d) = false

abbrev pub entry_class_name : MiEntry → Bytes
entry_class_name (mi_method c m d) = c
entry_class_name (mi_line c x a b d e) = c
entry_class_name (mi_var_bind c v l d) = c

-- the `method_sig` of `perform_instrumentation`
abbrev pub sig_of : MiEntry → Option Bytes
sig_of (mi_method c m d) = some m
sig_of e = none

-- `ci_remove_instrumented_line` on the class at an address
unfoldable pub remove_line : ℕ → ℕ → Action (Option ℕ)
remove_line ci line_number = do
  c ← gets (λ s. class_of s ci)
  r ← deref (ci_remove_instrumented_line c line_number)
  put_class ci r.0
  pure r.1

-- `ci_remove_instrumented_by_sig`: the profiler's id
unfoldable pub remove_by_sig : ℕ → Bytes → Action (Option (ℕ × ℕ))
remove_by_sig ci method_sig = do
  c ← gets (λ s. class_of s ci)
  r ← deref (ci_remove_instrumented_by_sig c method_sig)
  put_class ci r.0
  pure r.1

-- `undo_ci_and_mi`
unfoldable pub undo_ci_and_mi : MiEntry → ℕ → ℕ → Action (Unit {0})
unfolding remove_by_sig
undo_ci_and_mi entry ci instrument_id = do
  method_sig ← method_name entry
  _ ← remove_by_sig ci method_sig
  remove_instrument instrument_id

-- `ci->instrumented.len--` in `populate_class_info`
unfoldable pub drop_last_method : ℕ → Action (Unit {0})
drop_last_method ci = do
  c ← gets (λ s. class_of s ci)
  put_class ci (record c { instrumented = record c.instrumented { len = c.instrumented.len - 1 } })

module _ (jvm : Jvm) where
  -- `populate_class_info`, whether it returns 0; without a copy of the signature the entry is dropped
  unfoldable pub populate_class_info : ℕ → MiEntry → ℕ → ℕ → Action Bool
  unfolding drop_last_method
  populate_class_info ci entry profiler_id instrument_id = do
    method_sig ← method_name entry
    grow_ok ← malloc jvm
    c ← gets (λ s. class_of s ci)
    elim (instrumented_method_list_add_and_init grow_ok c.instrumented method_sig profiler_id
        instrument_id) [
          | none ↦ pure false
          | some l ↦ do
            put_class ci (record c { instrumented = l })
            sig_ok ← malloc jvm
            if sig_ok then pure true else (do drop_last_method ci; pure false)
        ]

  -- `populate_class_info_line`
  unfoldable pub populate_class_info_line : ℕ → ℕ → MiEntry → ℕ → ℕ → Action Bool
  unfolding remove_line
  populate_class_info_line ci_entry ci_exit entry profiler_id instrument_id = do
    line ← line_of entry
    entry_ok ← malloc jvm
    c ← gets (λ s. class_of s ci_entry)
    elim (ci_add_instrumented_line entry_ok c line.1 profiler_id instrument_id instrument_enter) [
      | none ↦ pure false
      | some c' ↦ do
        put_class ci_entry c'
        exit_ok ← malloc jvm
        x ← gets (λ s. class_of s ci_exit)
        elim (ci_add_instrumented_line exit_ok x line.2 profiler_id instrument_id instrument_exit) [
          | none ↦ do _ ← remove_line ci_entry line.1; pure false
          | some x' ↦ do put_class ci_exit x'; pure true
        ]
    ]

  -- `perform_instrumentation`, whether it returns 0
  unfoldable pub perform_instrumentation : ℕ → MiEntry → ℕ → ℕ → Action Bool
  perform_instrumentation ci entry profiler_id instrument_id = do
    c ← gets (λ s. class_of s ci)
    new_bc ← do_instrumentation jvm c
    elim new_bc [
      | none ↦ pure false
      | some bc ↦ do
        ret ← retransform_pending jvm c.name c.loader (sig_of entry) bc (some profiler_id)
        if ret
            then (do when (is_method entry) (mark_applied method_mark instrument_id); pure true)
            else pure false
    ]

  -- the label `fail` of `perform_instrumentation_line`
  unfoldable pub undo_line : ℕ → ℕ → MiEntry → ℕ → ℕ → Action Bool
  unfolding remove_line
  undo_line ci_entry ci_exit entry profiler_id instrument_id = do
    line ← line_of entry
    _ ← remove_line ci_entry line.1
    _ ← remove_line ci_exit line.2
    _ ← jni_remove_profiler jvm profiler_id
    remove_instrument instrument_id
    pure false

  -- `perform_instrumentation_line`
  unfoldable pub perform_instrumentation_line : ℕ → ℕ → MiEntry → ℕ → ℕ → Action Bool
  unfolding perform_instrumentation undo_line
  perform_instrumentation_line ci_entry ci_exit entry profiler_id instrument_id = do
    entry_done ← perform_instrumentation ci_entry entry profiler_id instrument_id
    if not entry_done then undo_line ci_entry ci_exit entry profiler_id instrument_id else (do
      exit_done ←
          if ci_exit == ci_entry
          then pure true
          else perform_instrumentation ci_exit entry profiler_id instrument_id
      if not exit_done then undo_line ci_entry ci_exit entry profiler_id instrument_id else (do
        mark_applied line_entry_mark instrument_id
        mark_applied line_exit_mark instrument_id
        pure true))

  -- `instrument_now`
  unfoldable pub instrument_now : ℕ → ℕ → ℕ → Action ℕ
  unfolding populate_class_info perform_instrumentation undo_ci_and_mi
  instrument_now ci instrument_id profiler_id = do
    found ← find_instrument instrument_id
    entry ← deref found
    populated ← populate_class_info ci entry profiler_id instrument_id
    if not populated
        then (do
          _ ← jni_remove_profiler jvm profiler_id
          remove_instrument instrument_id
          pure instrument_rp_error)
        else (do
          done ← perform_instrumentation ci entry profiler_id instrument_id
          if done then pure instrument_rp_ok else (do
            undo_ci_and_mi entry ci instrument_id
            _ ← jni_remove_profiler jvm profiler_id
            pure instrument_rp_error))
