-- ===== src/Instruments/Applying.antt =====
-- instrument-handler.c: putting an instrument into its classes fails no assertion, reads nothing through
-- NULL, and keeps the invariant.
use jauto_profiler_mcp.Prelude.{
  arith, ℕ, ◌≡◌, refl, Bool, true, false, not, Option, none, some, ◌==◌, if◌then◌else◌,
}
use jauto_profiler_mcp.HashTab.{Bytes}
use jauto_profiler_mcp.ClassInfo.{
  ClassInfo, ClassInfoList, InstrumentedMethod, InstrumentType, instrument_enter, instrument_exit,
  ci_add_instrumented_line, instrumented_method_list_add_and_init,
}
use jauto_profiler_mcp.DynArr.{DynArr}
use jauto_profiler_mcp.Queued.{QueuedInstrList}
use jauto_profiler_mcp.MasterInstruments.{
  MiEntry, mi_method, mi_line, mi_find, method_mark, line_entry_mark, line_exit_mark, Mark,
}
use jauto_profiler_mcp.Instruments.{
  InstrCtx, Jvm, Session, Action, pure, gets, ◌>>=◌, ◌>>◌, when, put_class, class_of,
  remove_instrument, find_instrument, mark_applied, malloc, jni_remove_profiler, do_instrumentation,
  retransform_pending,
}
use jauto_profiler_mcp.Instruments.Apply.{
  remove_line, remove_by_sig, drop_last_method, populate_class_info, populate_class_info_line,
  perform_instrumentation, undo_line, perform_instrumentation_line, undo_ci_and_mi, instrument_now,
  is_method, sig_of, instrument_rp_ok, instrument_rp_error,
}
use jauto_profiler_mcp.Instruments.Ensures.{
  Ensures, Keeps, Keeps-bind, Keeps-then, Keeps-pure, Keeps-when, Keeps-if, Keeps-option,
  Keeps-gets, Keeps-malloc, Keeps-jni_remove_profiler, Keeps-retransform_pending,
  Keeps-do_instrumentation,
}
use jauto_profiler_mcp.Instruments.Sound.{Free, Listed}
use jauto_profiler_mcp.Instruments.Steps.{Inv, Keeps-remove_instrument, mark_applied_lem}
use jauto_profiler_mcp.Instruments.Classes.{
  class_of-IsApplied, Inv-class, Keeps-remove_line, Keeps-remove_by_sig, add_line-IsApplied,
  add_method-IsApplied,
}

module _ (jvm : Jvm) (q : QueuedInstrList) (t : ClassInfoList) (k : ℕ) (id : ℕ) (kind : Bool)
    (free : Free q k id) where
  abbrev I : InstrCtx → Type 0
  I = Inv q t k id kind

  mark_free : (mark : Mark) → Keeps I (mark_applied mark id)
  mark_free mark = mark_applied_lem q t k id kind mark (λ j lt ne same. absurd (free j lt ne same))

  remove_free : Keeps I (remove_instrument id)
  remove_free = Keeps-remove_instrument q t k id kind free

  -- Reading a class, and writing it with a method more.
  Keeps-add_method :
      {B : Type 0} (ci : ℕ) (grow_ok : Bool) (m : Bytes) (p : ℕ) (failed done : Action B)
      → Listed t ci
      → Keeps I failed
      → Keeps I done
      → Keeps I (
          gets (λ s. class_of s ci) >>= λ c.
          elim (instrumented_method_list_add_and_init grow_ok c.instrumented m p id) [
            | none ↦ failed
            | some l ↦ put_class ci (record c { instrumented = l }) >> done
          ])
  Keeps-add_method {B} ci grow_ok m p failed done at kf kd s i =
      added (instrumented_method_list_add_and_init grow_ok (class_of s ci).instrumented m p id) refl
    where
      added :
          (r : Option (DynArr InstrumentedMethod))
          → instrumented_method_list_add_and_init grow_ok (class_of s ci).instrumented m p id ≡ r
          → Ensures
              (λ a s'. I s'.ctx)
              ((elim r as (λ _. Action B) [
                | none ↦ failed
                | some l ↦ put_class ci (record (class_of s ci) { instrumented = l }) >> done
              ])
                s)
      added none e = kf s i
      added (some l) e = kd _ (
          Inv-class q t k id kind ci _ s i
            (add_method-IsApplied s.ctx.master_instruments q k (class_of s ci)
              (class_of-IsApplied q t k id kind ci s at i) grow_ok m p id l e (i.1, free))
            refl)

  -- The last method of a class is dropped, if there is one.
  Keeps-drop_last_method : (ci : ℕ) → Listed t ci → Keeps I (drop_last_method ci)
  unfolding drop_last_method
  Keeps-drop_last_method ci at s i =
      let c = class_of s ci in
      let ok = class_of-IsApplied q t k id kind ci s at i in
      Inv-class q t k id kind ci _ s i
        (record {
          methods_valid = (omega (arith, ok.methods_valid), omega (arith, ok.methods_valid));
          lines_valid = ok.lines_valid;
          methods = λ j lt. ok.methods j (omega (arith, lt));
          lines = ok.lines;
        })
        refl

  Keeps-populate_class_info :
      (ci : ℕ) (c m : Bytes) (d : Bool) (p : ℕ)
      → Listed t ci
      → Keeps I (populate_class_info jvm ci (mi_method c m d) p id)
  unfolding populate_class_info
  Keeps-populate_class_info ci c m d p at =
      Keeps-bind I (malloc jvm) _ (Keeps-malloc I jvm) (λ grow_ok.
        Keeps-add_method ci grow_ok m p (pure false)
          (malloc jvm >>= λ sig_ok.
            if sig_ok then pure true else (drop_last_method ci >> pure false))
          at (Keeps-pure I false)
          (Keeps-bind I (malloc jvm) _ (Keeps-malloc I jvm) (λ sig_ok.
            Keeps-if I sig_ok _ _ (Keeps-pure I true) (
              Keeps-then I (drop_last_method ci) (pure false) (Keeps-drop_last_method ci at)
                (Keeps-pure I false)))))

  Keeps-perform_instrumentation :
      (ci : ℕ) (entry : MiEntry) (p : ℕ) → Keeps I (perform_instrumentation jvm ci entry p id)
  unfolding perform_instrumentation
  Keeps-perform_instrumentation ci entry p =
      Keeps-gets I (λ s. class_of s ci) _
        (λ c.
          Keeps-bind I (do_instrumentation jvm c) _ (Keeps-do_instrumentation I jvm c) (λ new_bc.
            Keeps-option I new_bc (pure false) _ (Keeps-pure I false) (λ bc.
              Keeps-bind I (retransform_pending jvm c.name c.loader (sig_of entry) bc (some p)) _
                (Keeps-retransform_pending I jvm c.name c.loader (sig_of entry) bc (some p))
                (λ ret.
                  Keeps-if I ret _ (pure false)
                    (Keeps-then I (when (is_method entry) (mark_applied method_mark id)) (pure true)
                      (Keeps-when I (is_method entry) _ (mark_free method_mark))
                      (Keeps-pure I true))
                    (Keeps-pure I false)))))

  -- Undoing a line takes it out of its classes and of the registry.
  Keeps-undo_line :
      (ci_entry ci_exit : ℕ) (c x : Bytes) (a b : ℕ) (d e : Bool) (p : ℕ)
      → Listed t ci_entry
      → Listed t ci_exit
      → Keeps I (undo_line jvm ci_entry ci_exit (mi_line c x a b d e) p id)
  unfolding undo_line
  Keeps-undo_line ci_entry ci_exit c x a b d e p at at' =
      Keeps-bind I (remove_line ci_entry a) _ (Keeps-remove_line q t k id kind ci_entry a at) (λ r.
        Keeps-bind I (remove_line ci_exit b) _ (Keeps-remove_line q t k id kind ci_exit b at')
          (λ r'.
            Keeps-bind I (jni_remove_profiler jvm p) _ (Keeps-jni_remove_profiler I jvm p) (λ u.
              Keeps-then I (remove_instrument id) (pure false) remove_free (Keeps-pure I false))))

  pub Keeps-perform_instrumentation_line :
      (ci_entry ci_exit : ℕ) (c x : Bytes) (a b : ℕ) (d e : Bool) (p : ℕ)
      → Listed t ci_entry
      → Listed t ci_exit
      → Keeps I (perform_instrumentation_line jvm ci_entry ci_exit (mi_line c x a b d e) p id)
  unfolding perform_instrumentation_line
  Keeps-perform_instrumentation_line ci_entry ci_exit c x a b d e p at at' =
      let entry = mi_line c x a b d e in
      let undone = Keeps-undo_line ci_entry ci_exit c x a b d e p at at' in
      Keeps-bind I (perform_instrumentation jvm ci_entry entry p id) _
        (Keeps-perform_instrumentation ci_entry entry p)
        (λ entry_done. Keeps-if I (not entry_done) _ _ undone (
          Keeps-bind I
            (if ci_exit == ci_entry
              then pure true
              else perform_instrumentation jvm ci_exit entry p id)
            _
            (Keeps-if I (ci_exit == ci_entry) _ _ (Keeps-pure I true)
              (Keeps-perform_instrumentation ci_exit entry p))
            (λ exit_done. Keeps-if I (not exit_done) _ _ undone (
              Keeps-then I (mark_applied line_entry_mark id) _ (mark_free line_entry_mark) (
                Keeps-then I (mark_applied line_exit_mark id) (pure true) (mark_free line_exit_mark)
                  (Keeps-pure I true))))))

  -- Reading a class, and writing it with a line more.
  Keeps-add_line :
      {B : Type 0} (ci : ℕ) (grow_ok : Bool) (l p : ℕ) (type : InstrumentType)
      (failed done : Action B)
      → kind ≡ true
      → Listed t ci
      → Keeps I failed
      → Keeps I done
      → Keeps I (
          gets (λ s. class_of s ci) >>= λ c. elim (ci_add_instrumented_line grow_ok c l p id type) [
            | none ↦ failed
            | some c' ↦ put_class ci c' >> done
          ])
  Keeps-add_line {B} ci grow_ok l p type failed done is at kf kd s i =
      added (ci_add_instrumented_line grow_ok (class_of s ci) l p id type) refl
    where
      added :
          (r : Option ClassInfo)
          → ci_add_instrumented_line grow_ok (class_of s ci) l p id type ≡ r
          → Ensures
              (λ a s'. I s'.ctx)
              ((elim r as (λ _. Action B) [ none ↦ failed | some c' ↦ put_class ci c' >> done ]) s)
      added none e = kf s i
      added (some c') e = kd _ (
          let (ok, same) =
            add_line-IsApplied s.ctx.master_instruments q k (class_of s ci)
              (class_of-IsApplied q t k id kind ci s at i) grow_ok l p id type c' e (i.1, free)
              (i.2 is) in
          Inv-class q t k id kind ci c' s i ok same)

  pub Keeps-populate_class_info_line :
      (ci_entry ci_exit : ℕ) (c x : Bytes) (a b : ℕ) (d e : Bool) (p : ℕ)
      → kind ≡ true
      → Listed t ci_entry
      → Listed t ci_exit
      → Keeps I (populate_class_info_line jvm ci_entry ci_exit (mi_line c x a b d e) p id)
  unfolding populate_class_info_line
  Keeps-populate_class_info_line ci_entry ci_exit c x a b d e p is at at' =
      Keeps-bind I (malloc jvm) _ (Keeps-malloc I jvm) (λ entry_ok.
        Keeps-add_line ci_entry entry_ok a p instrument_enter (pure false) _ is at
          (Keeps-pure I false)
          (Keeps-bind I (malloc jvm) _ (Keeps-malloc I jvm) (λ exit_ok.
            Keeps-add_line ci_exit exit_ok b p instrument_exit _ (pure true) is at'
              (Keeps-bind I (remove_line ci_entry a) _
                (Keeps-remove_line q t k id kind ci_entry a at) (λ r. Keeps-pure I false))
              (Keeps-pure I true))))

  -- `instrument_now` on a method that is in the registry.
  pub Ensures-instrument_now :
      (ci : ℕ) (c m : Bytes) (d : Bool) (p : ℕ) (s : Session)
      → Listed t ci
      → I s.ctx
      → mi_find s.ctx.master_instruments id ≡ some (mi_method c m d)
      → Ensures (λ a s'. I s'.ctx) (instrument_now jvm ci id p s)
  unfolding instrument_now find_instrument undo_ci_and_mi
  Ensures-instrument_now ci c m d p s at i found = rw found (
      Keeps-bind I (populate_class_info jvm ci (mi_method c m d) p id) _
        (Keeps-populate_class_info ci c m d p at)
        (λ populated.
          Keeps-if I (not populated) _ _
            (Keeps-bind I (jni_remove_profiler jvm p) _ (Keeps-jni_remove_profiler I jvm p) (λ u.
              Keeps-then I (remove_instrument id) (pure instrument_rp_error) remove_free
                (Keeps-pure I instrument_rp_error)))
            (Keeps-bind I (perform_instrumentation jvm ci (mi_method c m d) p id) _
              (Keeps-perform_instrumentation ci (mi_method c m d) p)
              (λ done. Keeps-if I done _ _ (Keeps-pure I instrument_rp_ok) (
                Keeps-then I (undo_ci_and_mi (mi_method c m d) ci id) _
                  (Keeps-bind I (remove_by_sig ci m) _ (Keeps-remove_by_sig q t k id kind ci m at)
                    (λ r. remove_free))
                  (Keeps-bind I (jni_remove_profiler jvm p) _ (Keeps-jni_remove_profiler I jvm p)
                    (λ v. Keeps-pure I instrument_rp_error))))))
        s i)
