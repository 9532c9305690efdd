-- ===== src/Instruments/Handle.antt =====
-- instrument-handler.c: the requests for a new instrument.
use jauto_profiler_mcp.Prelude.{ℕ, Bool, true, false, not, Option, none, some, ◌==◌, if◌then◌else◌}
use jauto_profiler_mcp.HashTab.{Bytes}
use jauto_profiler_mcp.MasterInstruments
use jauto_profiler_mcp.MasterInstruments.{
  MiEntry, mi_line, mi_add_method, mi_add_line, mi_find_method_by_name, MasterInstruments,
}
use jauto_profiler_mcp.Instruments.{
  Jvm, Action, pure, gets, deref, ◌>>=◌, ◌>>◌, set_registry, remove_instrument, find_class, malloc,
  jni_create_profiler, jni_remove_profiler,
}
use jauto_profiler_mcp.Instruments.Apply.{
  instrument_rp_ok, instrument_rp_double_instrument, instrument_rp_error, instrument_now,
  populate_class_info_line, perform_instrumentation_line,
}
use jauto_profiler_mcp.Instruments.Deferred.{
  instrument_later, instrument_later_line, instrument_line_rp_ok, instrument_line_rp_error, is_some,
}

module _ (jvm : Jvm) where
  -- a new entry in the registry: its id, 0 on failure
  unfoldable pub add_instrument :
      (MasterInstruments.Memory → MasterInstruments → Option (MasterInstruments × ℕ)) → Action ℕ
  add_instrument add = do
    entry_ok ← malloc jvm
    key_ok ← malloc jvm
    tab_ok ← malloc jvm
    mi ← gets (λ s. s.ctx.master_instruments)
    r ← deref (add (record { entry_ok = entry_ok; key_ok = key_ok; tab_ok = tab_ok }) mi)
    set_registry r.0
    pure r.1

  -- `add_master_method`: the status and the id
  unfoldable pub add_master_method : Bytes → Bytes → Action (ℕ × ℕ)
  unfolding add_instrument
  add_master_method class_name method_sig = do
    found ← gets (λ s. mi_find_method_by_name s.ctx.master_instruments class_name method_sig)
    elim found [
      | some r ↦ pure (instrument_rp_double_instrument, r.0)
      | none ↦ do
        id ← add_instrument (λ mem mi. mi_add_method mem mi class_name method_sig)
        pure (if id == 0 then instrument_rp_error else instrument_rp_ok, id)
    ]

  -- `instrument_later` in `ih_instrument_method`
  unfoldable pub method_later : Bytes → Bytes → ℕ → ℕ → Action ℕ
  method_later class_name method_sig instrument_id profiler_id = do
    status ← instrument_later jvm class_name method_sig instrument_id profiler_id
    if status == instrument_rp_error
        then (do _ ← jni_remove_profiler jvm profiler_id; pure status)
        else pure status

  -- `ih_instrument_method` after a new entry was made
  unfoldable pub method_added : Bytes → Bytes → ℕ → Action ℕ
  unfolding method_later
  method_added class_name method_sig instrument_id = do
    profiler_id ← jni_create_profiler jvm instrument_id
    elim profiler_id [
      | none ↦ do remove_instrument instrument_id; pure instrument_rp_error
      | some profiler_id ↦ do
        found ← find_class class_name
        elim found [
          | none ↦ method_later class_name method_sig instrument_id profiler_id
          | some ci ↦ instrument_now jvm ci instrument_id profiler_id
        ]
    ]

  -- `ih_instrument_method`: the status and the id
  unfoldable pub ih_instrument_method : Bytes → Bytes → Action (ℕ × ℕ)
  unfolding add_master_method method_added
  ih_instrument_method class_name method_sig = do
    added ← add_master_method class_name method_sig
    if not (added.0 == instrument_rp_ok)
        then pure added
        else (do status ← method_added class_name method_sig added.1; pure (status, added.1))

  -- `ih_instrument_line` where both classes are loaded
  unfoldable pub line_now : ℕ → ℕ → MiEntry → ℕ → ℕ → Action ℕ
  line_now ci_entry ci_exit entry profiler_id instrument_id = do
    populated ← populate_class_info_line jvm ci_entry ci_exit entry profiler_id instrument_id
    if not populated
        then (do
          _ ← jni_remove_profiler jvm profiler_id
          remove_instrument instrument_id
          pure instrument_line_rp_error)
        else (do
          done ← perform_instrumentation_line jvm ci_entry ci_exit entry profiler_id instrument_id
          pure (if done then instrument_line_rp_ok else instrument_line_rp_error))

  -- `ih_instrument_line` where a class is missing
  unfoldable pub line_later : Bytes → Bytes → ℕ → ℕ → ℕ → ℕ → Bool → Bool → Action ℕ
  line_later entry_class exit_class entry_line exit_line profiler_id instrument_id entry_loaded
        exit_loaded =
      do
        status ←
            instrument_later_line jvm entry_class exit_class entry_line exit_line profiler_id
              instrument_id entry_loaded exit_loaded
        if status == instrument_line_rp_error
            then (do _ ← jni_remove_profiler jvm profiler_id; pure status)
            else pure status

  -- `ih_instrument_line` after a new entry was made
  unfoldable pub line_added : Bytes → Bytes → ℕ → ℕ → ℕ → Action ℕ
  unfolding line_now line_later
  line_added entry_class exit_class entry_line exit_line instrument_id = do
    ci_entry ← find_class entry_class
    ci_exit ← find_class exit_class
    profiler_id ← jni_create_profiler jvm instrument_id
    elim profiler_id [
      | none ↦ do remove_instrument instrument_id; pure instrument_line_rp_error
      | some profiler_id ↦ elim ci_entry [
        | none ↦
            line_later entry_class exit_class entry_line exit_line profiler_id instrument_id false
              (is_some ci_exit)
        | some entry ↦ elim ci_exit [
          | none ↦
              line_later entry_class exit_class entry_line exit_line profiler_id instrument_id true
                false
          | some exit ↦
              line_now entry exit (mi_line entry_class exit_class entry_line exit_line true true)
                profiler_id instrument_id
        ]
      ]
    ]

  -- `ih_instrument_line`: the status and the id
  unfoldable pub ih_instrument_line : Bytes → Bytes → ℕ → ℕ → Action (ℕ × ℕ)
  unfolding add_instrument line_added
  ih_instrument_line entry_class exit_class entry_line exit_line = do
    id ← add_instrument (λ mem mi. mi_add_line mem mi entry_class exit_class entry_line exit_line)
    if id == 0 then pure (instrument_line_rp_error, id) else (do
      status ← line_added entry_class exit_class entry_line exit_line id
      pure (status, id))
