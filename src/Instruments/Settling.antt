-- ===== src/Instruments/Settling.antt =====
-- instrument-handler.c: what is applied of the queue waits no more.
use jauto_profiler_mcp.Prelude.{
  ℕ, ◌^◌, ◌<◌, ◌≡◌, refl, ap, sym, subst, Bool, true, false, not, Option, none, some, ◌==◌,
  if◌then◌else◌,
}
use jauto_profiler_mcp.HashTab.{Bytes}
use jauto_profiler_mcp.ClassInfo.{ClassInfo}
use jauto_profiler_mcp.MasterInstruments.{
  MiEntry, MasterInstruments, Mark, mi_method, mi_line, mi_var_bind, method_mark, line_entry_mark,
  line_exit_mark, mi_find, mi_line_is_ready,
}
use jauto_profiler_mcp.Queued.{
  QueuedInstr, QiDetail, qi_method, qi_line_enter, qi_line_exit, qi_var_bind,
}
use jauto_profiler_mcp.Instruments.{
  Jvm, Session, Action, pure, ◌>>=◌, ◌>>◌, when, class_of, remove_instrument, find_instrument,
  mark_applied, find_class, jni_remove_profiler, prof_err_log_printf, read_freed,
  do_instrumentation, retransform_pending,
}
use jauto_profiler_mcp.Instruments.Apply.{
  remove_line, remove_by_sig, populate_class_info, populate_class_info_line,
  perform_instrumentation, undo_line, perform_instrumentation_line, undo_ci_and_mi, instrument_now,
  is_method, sig_of, instrument_rp_ok, instrument_rp_error,
}
use jauto_profiler_mcp.Instruments.Deferred.{
  give_up_line, apply_line, line_marked, do_deferred_line_instrumentation,
  do_deferred_method_instrumentation, do_deferred,
}
use jauto_profiler_mcp.Instruments.Sound.{waits}
use jauto_profiler_mcp.Instruments.Stays.{
  Leads, After, Leads-bind, Leads-if, Leads-option, Leads-deref, stays_remove_profiler,
  stays_printf, stays_read_freed, stays_retransform, stays_do_instrumentation, stays_remove_line,
  stays_remove_by_sig, stays_populate, stays_populate_line,
}
use jauto_profiler_mcp.Instruments.Settled.{
  Settled, Later, applies, remove_settles, mark_stays', mark_settles,
}

-- What marks and removes one instrument only keeps what both keep.
module _ (X : MasterInstruments → Type 0) (jvm : Jvm) (id : ℕ)
    (marks : (mark : Mark) → Leads X X (mark_applied mark id))
    (removes : Leads X X (remove_instrument id)) where
  then_pure : {A B : Type 0} (m : Action A) (b : B) → Leads X X m → Leads X X (m >>= λ a. pure b)
  then_pure m b h = Leads-bind X X X m (λ a. pure b) h (λ a s r. r)

  perform_stays : (ci : ℕ) (e : MiEntry) (p : ℕ) → Leads X X (perform_instrumentation jvm ci e p id)
  unfolding perform_instrumentation
  perform_stays ci e p s =
      let c = class_of s ci in
      Leads-bind X X X (do_instrumentation jvm c) _ (stays_do_instrumentation X jvm c)
        (λ new_bc.
          Leads-option X X new_bc (pure false) _ (λ s r. r)
            (λ bc.
              Leads-bind X X X (retransform_pending jvm c.name c.loader (sig_of e) bc (some p)) _
                (stays_retransform X jvm c.name c.loader (sig_of e) bc (some p))
                (λ ret.
                  Leads-if X X ret (when (is_method e) (mark_applied method_mark id) >> pure true)
                    (pure false)
                    (then_pure (when (is_method e) (mark_applied method_mark id)) true
                      (marked_or_not (is_method e)))
                    (λ s r. r))))
        s
    where
      marked_or_not : (b : Bool) → Leads X X (when b (mark_applied method_mark id))
      marked_or_not true = marks method_mark
      marked_or_not false = λ s r. r

  undo_line_stays : (ci ci' : ℕ) (e : MiEntry) (p : ℕ) → Leads X X (undo_line jvm ci ci' e p id)
  unfolding undo_line
  undo_line_stays ci ci' (mi_method c m d) p = λ s r. tt
  undo_line_stays ci ci' (mi_var_bind c v l d) p = λ s r. tt
  undo_line_stays ci ci' (mi_line c x a b d e) p =
      Leads-bind X X X (remove_line ci a) _ (stays_remove_line X jvm ci a) (λ u.
        Leads-bind X X X (remove_line ci' b) _ (stays_remove_line X jvm ci' b) (λ u.
          Leads-bind X X X (jni_remove_profiler jvm p) _ (stays_remove_profiler X jvm p)
            (λ u. then_pure (remove_instrument id) false removes)))

  perform_line_stays :
      (ci ci' : ℕ) (e : MiEntry) (p : ℕ)
      → Leads X X (perform_instrumentation_line jvm ci ci' e p id)
  unfolding perform_instrumentation_line
  perform_line_stays ci ci' e p =
      Leads-bind X X X (perform_instrumentation jvm ci e p id) _ (perform_stays ci e p)
        (λ entry_done.
          Leads-if X X (not entry_done) (undo_line jvm ci ci' e p id) _ (undo_line_stays ci ci' e p)
            (Leads-bind X X X
              (if ci' == ci then pure true else perform_instrumentation jvm ci' e p id) _
              (Leads-if X X (ci' == ci) (pure true) (perform_instrumentation jvm ci' e p id)
                (λ s r. r) (perform_stays ci' e p))
              (λ exit_done.
                Leads-if X X (not exit_done) (undo_line jvm ci ci' e p id) _
                  (undo_line_stays ci ci' e p)
                  (Leads-bind X X X (mark_applied line_entry_mark id) _ (marks line_entry_mark)
                    (λ u.
                      then_pure (mark_applied line_exit_mark id) true (marks line_exit_mark))))))

  give_up_stays : (p : ℕ) → Leads X X (give_up_line jvm p id)
  unfolding give_up_line
  give_up_stays p = Leads-bind X X X (prof_err_log_printf jvm) _ (stays_printf X jvm) (λ u.
      Leads-bind X X X (jni_remove_profiler jvm p) _ (stays_remove_profiler X jvm p) (λ u. removes))

  when_stays : (b : Bool) (m : Action (Unit {0})) → Leads X X m → Leads X X (when b m)
  when_stays true m h = h
  when_stays false m h = λ s r. r

  apply_line_stays : (e : MiEntry) (c x : Bytes) (p : ℕ) → Leads X X (apply_line jvm e c x p id)
  unfolding apply_line find_class
  apply_line_stays e c x p = Leads-bind X X X (find_class c) _ (finds c) (λ ci.
      Leads-bind X X X (find_class x) _ (finds x) (λ ci'.
        Leads-option X X ci (give_up_line jvm p id) _ (give_up_stays p) (λ ci.
          Leads-option X X ci' (give_up_line jvm p id) _ (give_up_stays p) (λ ci'.
            Leads-bind X X X (populate_class_info_line jvm ci ci' e p id) _
              (stays_populate_line X jvm ci ci' e p id)
              (λ populated.
                Leads-if X X (not populated) (give_up_line jvm p id) _ (give_up_stays p) (
                  Leads-bind X X X (perform_instrumentation_line jvm ci ci' e p id) _
                    (perform_line_stays ci ci' e p)
                    (λ done. when_stays (not done) (read_freed jvm >> prof_err_log_printf jvm) (
                      Leads-bind X X X (read_freed jvm) _ (stays_read_freed X jvm)
                        (λ u. stays_printf X jvm)))))))))
    where
      finds : (name : Bytes) → Leads X X (find_class name)
      finds name s r = r

  pub line_marked_stays : (r : Option MiEntry) (p : ℕ) → Leads X X (line_marked jvm r p id)
  unfolding line_marked
  line_marked_stays none p = λ s r. r
  line_marked_stays (some (mi_method c m d)) p = λ s r. tt
  line_marked_stays (some (mi_var_bind c v l d)) p = λ s r. tt
  line_marked_stays (some (mi_line c x a b d e)) p =
      when_stays (mi_line_is_ready d e) (apply_line jvm (mi_line c x a b d e) c x p id)
        (apply_line_stays (mi_line c x a b d e) c x p)

-- `R'` where the result is true, and `R` where it is false
abbrev Outcome : (R R' : MasterInstruments → Type 0) → Option (Bool × Session) → Type 0
Outcome R R' none = Unit {0}
Outcome R R' (some (true, s)) = R' s.ctx.master_instruments
Outcome R R' (some (false, s)) = R s.ctx.master_instruments

bind-Outcome :
    {A : Type 0} (R R' : MasterInstruments → Type 0) (m : Action A) (f : A → Action Bool)
    → Leads R R m
    → ((a : A) (s : Session) → R s.ctx.master_instruments → Outcome R R' (f a s))
    → (s : Session) → R s.ctx.master_instruments
    → Outcome R R' ((m >>= f) s)
bind-Outcome {A} R R' m f h k s r = goes (m s) (h s r)
  where
    goes :
        (x : Option (A × Session))
        → After R x
        → Outcome R R'
            (elim x as (λ _. Option (Bool × Session)) [ none ↦ none | some (a, s') ↦ f a s' ])
    goes none r' = tt
    goes (some (a, s')) r' = k a s' r'

if_done :
    {B : Type 0} (R R' : MasterInstruments → Type 0) (m : Action Bool) (f : Bool → Action B)
    → ((s : Session) → R s.ctx.master_instruments → Outcome R R' (m s))
    → Leads R' R' (f true)
    → Leads R R' (f false)
    → Leads R R' (m >>= f)
if_done {B} R R' m f h good bad s r = goes (m s) (h s r)
  where
    goes :
        (x : Option (Bool × Session))
        → Outcome R R' x
        → After R' (elim x as (λ _. Option (B × Session)) [ none ↦ none | some (a, s') ↦ f a s' ])
    goes none r' = tt
    goes (some (true, s')) r' = good s' r'
    goes (some (false, s')) r' = bad s' r'

module _ (jvm : Jvm) (before : MasterInstruments) (qi : QueuedInstr)
    (range : qi.instrument_id < 2 ^ 64) where
  abbrev id : ℕ
  id = qi.instrument_id

  abbrev L : MasterInstruments → Type 0
  L = Later before

  abbrev L' : MasterInstruments → Type 0
  L' mi = Later before mi × Settled qi mi

  removes' : Leads L' L' (remove_instrument id)
  removes' s r = remove_settles before qi range s r.0

  gone_settles : {A : Type 0} (a : A) → Leads L L' (remove_instrument id >> pure a)
  gone_settles a =
      Leads-bind L L' L' (remove_instrument id) (λ u. pure a) (remove_settles before qi range)
        (λ u s r. r)

  perform-Outcome :
      (ci : ℕ) (c m : Bytes) (d : Bool) (p : ℕ)
      → applies method_mark qi.detail ≡ true
      → (s : Session) → L s.ctx.master_instruments
      → Outcome L L' (perform_instrumentation jvm ci (mi_method c m d) p id s)
  unfolding perform_instrumentation mark_applied
  perform-Outcome ci c m d p is s =
      let k = class_of s ci in
      bind-Outcome L L' (do_instrumentation jvm k) _ (stays_do_instrumentation L jvm k)
        (λ new_bc s1. made k new_bc s1) s
    where
      ended :
          (ret : Bool)
          → (s : Session) → L s.ctx.master_instruments
          → Outcome L L'
              ((if ret then (mark_applied method_mark id >> pure true) else pure false) s)
      ended true s r = mark_settles before qi range method_mark is s r
      ended false s r = r

      made :
          (k : ClassInfo) (new_bc : Option Bytes) (s : Session)
          → L s.ctx.master_instruments
          → Outcome L L' (
              (elim new_bc as (λ _. Action Bool) [
                | none ↦ pure false
                | some bc ↦ retransform_pending jvm k.name k.loader (some m) bc (some p) >>= λ ret.
                    if ret then (mark_applied method_mark id >> pure true) else pure false
              ])
                s)
      made k none s r = r
      made k (some bc) s r =
          bind-Outcome L L' (retransform_pending jvm k.name k.loader (some m) bc (some p)) _
            (stays_retransform L jvm k.name k.loader (some m) bc (some p)) ended s r

  instrument_now_settles :
      (ci p : ℕ) → applies method_mark qi.detail ≡ true → Leads L L' (instrument_now jvm ci id p)
  unfolding instrument_now find_instrument undo_ci_and_mi populate_class_info
  instrument_now_settles ci p is s r =
      Leads-deref L L' (mi_find s.ctx.master_instruments id) _ by_entry s r
    where
      by_entry :
          (e : MiEntry)
          → Leads L L' (
              populate_class_info jvm ci e p id >>= λ populated.
              if not populated
              then (jni_remove_profiler jvm p >>= λ u.
                  remove_instrument id >> pure instrument_rp_error)
              else (perform_instrumentation jvm ci e p id >>= λ done.
                  if done
                  then pure instrument_rp_ok
                  else (undo_ci_and_mi e ci id
                      >> (jni_remove_profiler jvm p >>= λ u. pure instrument_rp_error))))
      by_entry (mi_line c x a b d e) = λ s r. tt
      by_entry (mi_var_bind c v l d) = λ s r. tt
      by_entry (mi_method c m d) =
          Leads-bind L L L' (populate_class_info jvm ci (mi_method c m d) p id) _
            (stays_populate L jvm ci (mi_method c m d) p id)
            (λ populated.
              Leads-if L L' (not populated) _ _
                (Leads-bind L L L' (jni_remove_profiler jvm p) _ (stays_remove_profiler L jvm p)
                  (λ u. gone_settles instrument_rp_error))
                (if_done L L' (perform_instrumentation jvm ci (mi_method c m d) p id) _
                  (perform-Outcome ci c m d p is) (λ s r. r)
                  (Leads-bind L L' L' (undo_ci_and_mi (mi_method c m d) ci id) _
                    (Leads-bind L L L' (remove_by_sig ci m) (λ u. remove_instrument id)
                      (stays_remove_by_sig L jvm ci m) (λ u. remove_settles before qi range))
                    (λ u.
                      Leads-bind L' L' L' (jni_remove_profiler jvm p) _
                        (stays_remove_profiler L' jvm p) (λ u s r. r)))))

  method_settles :
      (ci : ℕ)
      → applies method_mark qi.detail ≡ true
      → Leads L L' (do_deferred_method_instrumentation jvm ci qi)
  unfolding do_deferred_method_instrumentation
  method_settles ci is = Leads-deref L L' qi.profiler_id _ (λ p.
      Leads-bind L L' L' (instrument_now jvm ci id p) _ (instrument_now_settles ci p is) (λ status.
        when_stays L' jvm id (mark_stays' before qi range) removes'
          (not (status == instrument_rp_ok)) (prof_err_log_printf jvm) (stays_printf L' jvm)))

  line_settles :
      (at_entry : Bool)
      → applies (if at_entry then line_entry_mark else line_exit_mark) qi.detail ≡ true
      → Leads L L' (do_deferred_line_instrumentation jvm qi at_entry)
  unfolding do_deferred_line_instrumentation find_instrument
  line_settles at_entry is = Leads-deref L L' qi.profiler_id _ (λ p.
      Leads-bind L L' L' (mark_applied (if at_entry then line_entry_mark else line_exit_mark) id) _
        (mark_settles before qi range (if at_entry then line_entry_mark else line_exit_mark) is)
        (λ u s r.
          line_marked_stays L' jvm id (mark_stays' before qi range) removes'
            (mi_find s.ctx.master_instruments id) p s r))

  -- Applying an entry of the queue, if that has a result, settles it and unsettles none.
  pub do_deferred_settles :
      (ci : ℕ) (d : QiDetail) → qi.detail ≡ d → Leads L L' (do_deferred jvm ci qi d)
  unfolding do_deferred
  do_deferred_settles ci (qi_method m) is = method_settles ci (ap (applies method_mark) is)
  do_deferred_settles ci (qi_line_enter l) is = line_settles true (ap (applies line_entry_mark) is)
  do_deferred_settles ci (qi_line_exit l) is = line_settles false (ap (applies line_exit_mark) is)
  do_deferred_settles ci (qi_var_bind v l) is =
      λ s r. (r, λ e there. subst (λ x. waits x e ≡ false) (sym is) refl)
