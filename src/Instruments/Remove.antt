-- ===== src/Instruments/Remove.antt =====
-- instrument-handler.c: taking an instrument out again.
use jauto_profiler_mcp.Prelude.{ℕ, Bool, true, false, not, Option, none, some, ◌==◌, if◌then◌else◌}
use jauto_profiler_mcp.HashTab.{Bytes}
use jauto_profiler_mcp.MasterInstruments.{
  MiEntry, mi_method, mi_line, mi_var_bind, mi_line_is_ready, mi_find_method_by_name,
}
use jauto_profiler_mcp.Instruments.{
  Jvm, Action, pure, crash, gets, ◌>>=◌, ◌>>◌, class_of, remove_instrument, find_instrument,
  find_class, jni_remove_profiler, do_instrumentation, retransform_pending,
}
use jauto_profiler_mcp.Instruments.Apply.{remove_line, remove_by_sig}
use jauto_profiler_mcp.Instruments.Deferred.{remove_queued_instr_by_id}

-- enum deinstrument_resp_status
abbrev pub deinstrument_rp_ok : ℕ
deinstrument_rp_ok = 0

abbrev pub deinstrument_rp_fail : ℕ
deinstrument_rp_fail = 1

module _ (jvm : Jvm) where
  -- `jni_remove_profiler` where the id is not negative
  unfoldable pub remove_profiler_of : Option ℕ → Action (Unit {0})
  remove_profiler_of none = pure tt
  remove_profiler_of (some id) = do _ ← jni_remove_profiler jvm id; pure tt

  -- the instrument is dropped while it waits, in `deinstrument_line_by_id` and
  -- `deinstrument_method_by_id`
  unfoldable pub drop_deferred : ℕ → Action ℕ
  unfolding remove_profiler_of
  drop_deferred instrument_id = do
    profiler_id ← remove_queued_instr_by_id instrument_id
    remove_profiler_of profiler_id
    remove_instrument instrument_id
    pure deinstrument_rp_ok

  -- the bytecode of a class is made anew and the class transformed; whether there is bytecode
  unfoldable pub rebuild : ℕ → Action Bool
  rebuild ci = do
    c ← gets (λ s. class_of s ci)
    new_bc ← do_instrumentation jvm c
    elim new_bc [
      | none ↦ pure false
      | some bc ↦ do _ ← retransform_pending jvm c.name c.loader none bc none; pure true
    ]

  -- the label `cleanup` of `deinstrument_line_by_id`
  unfoldable pub line_cleanup : ℕ → Option ℕ → Bool → Action ℕ
  unfolding remove_profiler_of
  line_cleanup instrument_id profiler_id done = do
    remove_instrument instrument_id
    remove_profiler_of profiler_id
    pure (if done then deinstrument_rp_ok else deinstrument_rp_fail)

  -- `deinstrument_line_by_id` of an instrument that was applied to these classes
  unfoldable pub remove_applied_line : ℕ → ℕ → ℕ → ℕ → ℕ → Action ℕ
  unfolding rebuild line_cleanup
  remove_applied_line ci_entry ci_exit entry_line exit_line instrument_id = do
    profiler_id ← remove_line ci_entry entry_line
    _ ← remove_line ci_exit exit_line
    entry_done ← rebuild ci_entry
    exit_done ←
        if entry_done
        then if ci_exit == ci_entry then pure true else rebuild ci_exit
        else pure false
    line_cleanup instrument_id profiler_id exit_done

  -- `deinstrument_line_by_id`
  unfoldable pub deinstrument_line_by_id : Bytes → Bytes → ℕ → ℕ → Bool → Bool → ℕ → Action ℕ
  unfolding drop_deferred remove_applied_line
  deinstrument_line_by_id entry_class exit_class entry_line exit_line entry_deferred exit_deferred
        instrument_id =
      if not (mi_line_is_ready entry_deferred exit_deferred)
      then drop_deferred instrument_id
      else (do
        ci_entry ← find_class entry_class
        ci_exit ← find_class exit_class
        elim ci_entry [
          | none ↦ pure deinstrument_rp_fail
          | some ci_entry ↦ elim ci_exit [
            | none ↦ pure deinstrument_rp_fail
            | some ci_exit ↦ remove_applied_line ci_entry ci_exit entry_line exit_line instrument_id
          ]
        ])

  -- `deinstrument_method_by_id` once the method was taken out of its class
  unfoldable pub method_taken_out : ℕ → Bytes → ℕ → ℕ → Action ℕ
  method_taken_out ci class_name profiler_id instrument_id = do
    c ← gets (λ s. class_of s ci)
    new_bc ← do_instrumentation jvm c
    done ← elim new_bc [
      | none ↦ pure false
      | some bc ↦ retransform_pending jvm class_name c.loader none bc none
    ]
    remove_instrument instrument_id
    _ ← jni_remove_profiler jvm profiler_id
    pure (if done then deinstrument_rp_ok else deinstrument_rp_fail)

  -- `deinstrument_method_by_id`
  unfoldable pub deinstrument_method_by_id : Bytes → Bytes → Bool → ℕ → Action ℕ
  unfolding drop_deferred method_taken_out
  deinstrument_method_by_id class_name method_sig deferred instrument_id =
      if deferred then drop_deferred instrument_id else (do
        found ← find_class class_name
        elim found [
          | none ↦ pure deinstrument_rp_fail
          | some ci ↦ do
            removed ← remove_by_sig ci method_sig
            elim removed [
              | none ↦ pure deinstrument_rp_fail
              | some ids ↦ method_taken_out ci class_name ids.0 instrument_id
            ]
        ])

  -- the switch of `ih_deinstrument_by_id`
  unfoldable pub deinstrument_entry : MiEntry → ℕ → Action ℕ
  unfolding deinstrument_line_by_id deinstrument_method_by_id
  deinstrument_entry (mi_method c m d) instrument_id = deinstrument_method_by_id c m d instrument_id
  deinstrument_entry (mi_line c x a b d e) instrument_id =
      deinstrument_line_by_id c x a b d e instrument_id
  deinstrument_entry (mi_var_bind c v l d) instrument_id = pure deinstrument_rp_fail

  -- `ih_deinstrument_by_id`
  unfoldable pub ih_deinstrument_by_id : ℕ → Action ℕ
  unfolding deinstrument_entry
  ih_deinstrument_by_id instrument_id = do
    found ← find_instrument instrument_id
    elim found [
      | none ↦ pure deinstrument_rp_fail
      | some entry ↦ deinstrument_entry entry instrument_id
    ]

  -- `deinstrument_method_by_id` of an entry that `mi_find_method_by_name` found
  unfoldable pub deinstrument_found : ℕ × MiEntry → Action ℕ
  unfolding deinstrument_method_by_id
  deinstrument_found (id, mi_method c m d) = deinstrument_method_by_id c m d id
  deinstrument_found (id, mi_line c x a b d e) = crash
  deinstrument_found (id, mi_var_bind c v l d) = crash

  -- `ih_deinstrument_method`
  unfoldable pub ih_deinstrument_method : Bytes → Bytes → Action ℕ
  unfolding deinstrument_found
  ih_deinstrument_method class_name method_sig = do
    found ← gets (λ s. mi_find_method_by_name s.ctx.master_instruments class_name method_sig)
    elim found [ none ↦ pure deinstrument_rp_fail | some r ↦ deinstrument_found r ]
