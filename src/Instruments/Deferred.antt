-- ===== src/Instruments/Deferred.antt =====
-- instrument-handler.c: the instruments that wait for their class, and what is done when it is loaded.
use jauto_profiler_mcp.Prelude.{
  ℕ, zero, suc, ◌-◌, Bool, true, false, not, ◌&&◌, Option, none, some, ◌==◌, if◌then◌else◌,
}
use jauto_profiler_mcp.HashTab.{Bytes, keycmp}
use jauto_profiler_mcp.Queued.{
  QueuedInstr, QiDetail, qi_method, qi_line_enter, qi_line_exit, qi_var_bind,
  queued_instr_method_add, queued_instr_line_add, queued_instr_list_remove_and_destroy,
  queued_instr_list_find_by_class, queued_instr_list_find_by_instrument_id,
}
use jauto_profiler_mcp.MasterInstruments.{
  MiEntry, mi_method, mi_line, mi_var_bind, mi_line_is_ready, line_entry_mark, line_exit_mark,
}
use jauto_profiler_mcp.Instruments.{
  Jvm, Session, Action, pure, crash, gets, deref, ◌>>=◌, ◌>>◌, when, set_queue, class_of,
  remove_instrument, find_instrument, mark_applied, find_class, malloc, read_freed,
  jni_remove_profiler, prof_err_log_printf,
}
use jauto_profiler_mcp.Instruments.Apply.{
  instrument_rp_ok, instrument_rp_error, instrument_rp_deferred, populate_class_info_line,
  perform_instrumentation_line, instrument_now,
}

-- enum instrument_line_resp_status
abbrev pub instrument_line_rp_ok : ℕ
instrument_line_rp_ok = 0

abbrev pub instrument_line_rp_error : ℕ
instrument_line_rp_error = 1

abbrev pub instrument_line_rp_deferred : ℕ
instrument_line_rp_deferred = 2

-- `assert`
abbrev pub assert : Bool → Action (Unit {0})
assert true = pure tt
assert false = crash

abbrev pub is_line : QiDetail → Bool
is_line (qi_line_enter l) = true
is_line (qi_line_exit l) = true
is_line (qi_method m) = false
is_line (qi_var_bind v l) = false

abbrev pub same_id : Option ℕ → Option ℕ → Bool
same_id none none = true
same_id (some a) (some b) = a == b
same_id none (some b) = false
same_id (some a) none = false

abbrev pub is_some : {A : Type 0} → Option A → Bool
is_some none = false
is_some (some a) = true

-- `mi_line_is_ready`, with the member of the union that it reads
abbrev pub is_ready : MiEntry → Action Bool
is_ready (mi_line c x a b d e) = pure (mi_line_is_ready d e)
is_ready e = crash

abbrev pub queued_at : ℕ → Session → QueuedInstr
queued_at i s = s.ctx.queued_instruments.arr i

-- `queued_instr_list_remove_and_destroy` on the queue of the context
unfoldable pub remove_queued : ℕ → Action (Unit {0})
remove_queued idx = do
  q ← gets (λ s. s.ctx.queued_instruments)
  q' ← deref (queued_instr_list_remove_and_destroy q idx)
  set_queue q'

unfoldable pub find_queued : ℕ → Action (Option ℕ)
find_queued iid = gets (λ s. queued_instr_list_find_by_instrument_id s.ctx.queued_instruments iid)

-- the end of `remove_queued_instr_by_id`, where the queue holds a second entry
unfoldable pub remove_second : ℕ → QueuedInstr → ℕ → Action (Option ℕ)
unfolding remove_queued find_queued
remove_second iid qi idx = do
  other ← gets (queued_at idx)
  assert (is_line qi.detail)
  assert (same_id other.profiler_id qi.profiler_id)
  assert (is_line other.detail)
  remove_queued idx
  third ← find_queued iid
  assert (not (is_some third))
  pure qi.profiler_id

-- `remove_queued_instr_by_id`
unfoldable pub remove_queued_instr_by_id : ℕ → Action (Option ℕ)
unfolding remove_queued find_queued remove_second
remove_queued_instr_by_id iid = do
  found ← find_queued iid
  elim found [
    | none ↦ pure none
    | some idx ↦ do
      qi ← gets (queued_at idx)
      remove_queued idx
      again ← find_queued iid
      elim again [ none ↦ pure qi.profiler_id | some idx' ↦ remove_second iid qi idx' ]
  ]

-- the end of `instrument_later` where a string of the new entry is missing
unfoldable pub drop_last : ℕ → Action ℕ
unfolding remove_queued
drop_last instrument_id = do
  q ← gets (λ s. s.ctx.queued_instruments)
  remove_queued (q.len - 1)
  remove_instrument instrument_id
  pure instrument_rp_error

module _ (jvm : Jvm) where
  -- `instrument_later`; `class_ok` and `sig_ok` say whether the strings of the entry could be copied
  unfoldable pub instrument_later : Bytes → Bytes → ℕ → ℕ → Action ℕ
  unfolding drop_last
  instrument_later class_name method_sig instrument_id profiler_id = do
    grow_ok ← malloc jvm
    q ← gets (λ s. s.ctx.queued_instruments)
    elim (queued_instr_method_add grow_ok q class_name method_sig profiler_id instrument_id) [
      | none ↦ do remove_instrument instrument_id; pure instrument_rp_error
      | some q' ↦ do
        set_queue q'
        class_ok ← malloc jvm
        sig_ok ← malloc jvm
        if class_ok && sig_ok then pure instrument_rp_deferred else drop_last instrument_id
    ]

  -- one of the two halves of `instrument_later_line`, whether it succeeds; it
  -- fails also when the entry is there and the name of its class could not be copied
  unfoldable pub queue_line : Bytes → ℕ → ℕ → ℕ → Bool → Action Bool
  queue_line class_name line_number profiler_id instrument_id at_entry = do
    grow_ok ← malloc jvm
    q ← gets (λ s. s.ctx.queued_instruments)
    elim (queued_instr_line_add grow_ok q class_name line_number profiler_id instrument_id
        at_entry) [ none ↦ pure false | some q' ↦ do set_queue q'; malloc jvm ]

  -- the label `fail` of `instrument_later_line`
  unfoldable pub unqueue_line : ℕ → Action ℕ
  unfolding remove_queued_instr_by_id
  unqueue_line instrument_id = do
    _ ← remove_queued_instr_by_id instrument_id
    remove_instrument instrument_id
    pure instrument_line_rp_error

  -- `instrument_later_line` on a new entry with these classes and lines
  unfoldable pub instrument_later_line : Bytes → Bytes → ℕ → ℕ → ℕ → ℕ → Bool → Bool → Action ℕ
  unfolding queue_line unqueue_line
  instrument_later_line entry_class exit_class entry_line exit_line profiler_id instrument_id
        entry_loaded exit_loaded =
      do
        entry_done ←
            if not entry_loaded
            then queue_line entry_class entry_line profiler_id instrument_id true
            else (do mark_applied line_entry_mark instrument_id; pure true)
        if not entry_done then unqueue_line instrument_id else (do
          exit_done ←
              if not exit_loaded && not (keycmp entry_class exit_class)
              then queue_line exit_class exit_line profiler_id instrument_id false
              else (do mark_applied line_exit_mark instrument_id; pure true)
          if not exit_done then unqueue_line instrument_id else pure instrument_line_rp_deferred)

  -- `do_deferred_method_instrumentation`; an instrument of a method has a profiler
  unfoldable pub do_deferred_method_instrumentation : ℕ → QueuedInstr → Action (Unit {0})
  do_deferred_method_instrumentation ci qi = do
    profiler_id ← deref qi.profiler_id
    status ← instrument_now jvm ci qi.instrument_id profiler_id
    when (not (status == instrument_rp_ok)) (prof_err_log_printf jvm)

  -- the early return of `do_deferred_line_instrumentation`
  unfoldable pub give_up_line : ℕ → ℕ → Action (Unit {0})
  give_up_line profiler_id instrument_id = do
    prof_err_log_printf jvm
    _ ← jni_remove_profiler jvm profiler_id
    remove_instrument instrument_id

  -- `do_deferred_line_instrumentation` from the search for the classes on; where the lines could not be
  -- applied, `perform_instrumentation_line` has removed the entry, whose names are read for the log
  unfoldable pub apply_line : MiEntry → Bytes → Bytes → ℕ → ℕ → Action (Unit {0})
  unfolding give_up_line
  apply_line entry entry_class exit_class profiler_id instrument_id = do
    ci_entry ← find_class entry_class
    ci_exit ← find_class exit_class
    elim ci_entry [
      | none ↦ give_up_line profiler_id instrument_id
      | some ci_entry ↦ elim ci_exit [
        | none ↦ give_up_line profiler_id instrument_id
        | some ci_exit ↦ do
          populated ← populate_class_info_line jvm ci_entry ci_exit entry profiler_id instrument_id
          if not populated then give_up_line profiler_id instrument_id else (do
            done ← perform_instrumentation_line jvm ci_entry ci_exit entry profiler_id instrument_id
            when (not done) (do read_freed jvm; prof_err_log_printf jvm))
      ]
    ]

  -- the part of `do_deferred_line_instrumentation` after the mark
  unfoldable pub line_marked : Option MiEntry → ℕ → ℕ → Action (Unit {0})
  unfolding apply_line
  line_marked none profiler_id instrument_id = pure tt
  line_marked (some (mi_method c m d)) profiler_id instrument_id = crash
  line_marked (some (mi_var_bind c v l d)) profiler_id instrument_id = crash
  line_marked (some (mi_line c x a b d e)) profiler_id instrument_id =
      when (mi_line_is_ready d e) (apply_line (mi_line c x a b d e) c x profiler_id instrument_id)

  -- `do_deferred_line_instrumentation`; an instrument of a line has a profiler
  unfoldable pub do_deferred_line_instrumentation : QueuedInstr → Bool → Action (Unit {0})
  unfolding line_marked
  do_deferred_line_instrumentation qi at_entry = do
    profiler_id ← deref qi.profiler_id
    mark_applied (if at_entry then line_entry_mark else line_exit_mark) qi.instrument_id
    entry ← find_instrument qi.instrument_id
    line_marked entry profiler_id qi.instrument_id

  -- the switch of `do_deferred_instrumentations`
  unfoldable pub do_deferred : ℕ → QueuedInstr → QiDetail → Action (Unit {0})
  unfolding do_deferred_method_instrumentation do_deferred_line_instrumentation
  do_deferred ci qi (qi_method m) = do_deferred_method_instrumentation ci qi
  do_deferred ci qi (qi_line_enter l) = do_deferred_line_instrumentation qi true
  do_deferred ci qi (qi_line_exit l) = do_deferred_line_instrumentation qi false
  do_deferred ci qi (qi_var_bind v l) = pure tt

  -- `do_deferred_instrumentations`, on fuel; it has no result when the fuel is used up
  unfoldable pub do_deferred_instrumentations : ℕ → ℕ → Action (Unit {0})
  unfolding do_deferred remove_queued
  do_deferred_instrumentations zero ci = crash
  do_deferred_instrumentations (suc n) ci = do
    c ← gets (λ s. class_of s ci)
    found ← gets (λ s. queued_instr_list_find_by_class s.ctx.queued_instruments c.name)
    elim found [
      | none ↦ pure tt
      | some idx ↦ do
        qi ← gets (queued_at idx)
        do_deferred ci qi qi.detail
        remove_queued idx
        do_deferred_instrumentations n ci
    ]

  -- `ih_apply_deferred_instrumentations`, with a round for each entry of the queue and one more
  unfoldable pub ih_apply_deferred_instrumentations : ℕ → Action (Unit {0})
  unfolding do_deferred_instrumentations
  ih_apply_deferred_instrumentations ci = do
    n ← gets (λ s. s.ctx.queued_instruments.len)
    do_deferred_instrumentations (suc n) ci
