-- ===== src/Instruments/Waiting.antt =====
-- instrument-handler.c: what waits for a class is applied when the class is loaded.
use jauto_profiler_mcp.Prelude.{
  some_injective, ℕ, ◌<◌, ◌≡◌, refl, ap, ◌∙◌, sym, ◌≢◌, inl, inr, Bool, true, false, not, Option,
  none, some, arith, subst, ◌==◌, if◌then◌else◌,
}
use jauto_profiler_mcp.HashTab.{Bytes}
use jauto_profiler_mcp.ClassInfo.{ClassInfoList}
use jauto_profiler_mcp.Queued.{
  QueuedInstr, QueuedInstrList, QiDetail, qi_method, qi_line_enter, qi_line_exit, qi_var_bind,
}
use jauto_profiler_mcp.MasterInstruments.{
  MiEntry, mi_method, mi_line, mi_var_bind, mi_find, mi_line_is_ready, line_entry_mark,
  line_exit_mark,
}
use jauto_profiler_mcp.Instruments.{
  Jvm, InstrCtx, Session, find_instrument, mark_applied, jni_remove_profiler, prof_err_log_printf,
}
use jauto_profiler_mcp.Instruments.Apply.{
  instrument_rp_ok, populate_class_info_line, perform_instrumentation_line, instrument_now,
}
use jauto_profiler_mcp.Instruments.Deferred.{
  give_up_line, apply_line, line_marked, do_deferred_line_instrumentation,
  do_deferred_method_instrumentation, do_deferred,
}
use jauto_profiler_mcp.Instruments.{read_freed, ◌>>◌}
use jauto_profiler_mcp.Instruments.Ensures.{
  Keeps-read_freed, Ensures, Ensures-bind, Ensures-weaken, Keeps, Keeps-bind, Keeps-then,
  Keeps-when, Keeps-if, Keeps-jni_remove_profiler, Keeps-prof_err_log_printf,
}
use jauto_profiler_mcp.Instruments.Sound.{
  IsSound, IsQueued, Free, Listed, is_line_entry, waits, opposite,
}
use jauto_profiler_mcp.Instruments.Steps.{
  Inv, Keeps-remove_instrument, mark_applied_lem, Keeps-find_class, passes,
}
use jauto_profiler_mcp.Instruments.Queue.{IsSound-skip}
use jauto_profiler_mcp.Instruments.Applying.{
  Keeps-perform_instrumentation_line, Keeps-populate_class_info_line, Ensures-instrument_now,
}

-- An entry of a method shares its id with no other.
Free-method :
    (q : QueuedInstrList) (k : ℕ) (m : Bytes)
    → IsQueued q
    → k < q.len
    → (q.arr k).detail ≡ qi_method m
    → Free q k (q.arr k).instrument_id
Free-method q k m ok lt is j jl ne same = elim (ok.apart j k jl lt ne) [
  | inl other ↦ other same
  | inr (sides, p) ↦ let none_opposite = not_opposite (q.arr j).detail in absurd (ground arith)
]
  where
    not_opposite : (d : QiDetail) → opposite d (qi_method m) ≡ false
    not_opposite (qi_method n) = refl
    not_opposite (qi_line_enter l) = refl
    not_opposite (qi_line_exit l) = refl
    not_opposite (qi_var_bind v l) = refl

module _ (jvm : Jvm) (q : QueuedInstrList) (t : ClassInfoList) (k : ℕ) (id : ℕ)
    (readable : (i : ℕ) → jvm.freed i ≡ true) where
  abbrev I : InstrCtx → Type 0
  I = Inv q t k id true

  module _ (free : Free q k id) where
    Keeps-give_up_line : (p : ℕ) → Keeps I (give_up_line jvm p id)
    unfolding give_up_line
    Keeps-give_up_line p =
        Keeps-then I (prof_err_log_printf jvm) _ (Keeps-prof_err_log_printf I jvm) (
          Keeps-bind I (jni_remove_profiler jvm p) _ (Keeps-jni_remove_profiler I jvm p)
            (λ u. Keeps-remove_instrument q t k id true free))

    Keeps-apply_line :
        (c x : Bytes) (a b : ℕ) (d e : Bool) (p : ℕ)
        → Keeps I (apply_line jvm (mi_line c x a b d e) c x p id)
    unfolding apply_line
    Keeps-apply_line c x a b d e p =
        Keeps-find_class q t k id true c _
          (Keeps-find_class q t k id true x _ (Keeps-give_up_line p)
            (λ ci at. Keeps-give_up_line p))
          (λ ci at. Keeps-find_class q t k id true x _ (Keeps-give_up_line p) (λ ci' at'.
            Keeps-bind I (populate_class_info_line jvm ci ci' (mi_line c x a b d e) p id) _
              (Keeps-populate_class_info_line jvm q t k id true free ci ci' c x a b d e p refl at
                at')
              (λ populated. Keeps-if I (not populated) _ _ (Keeps-give_up_line p) (
                Keeps-bind I (perform_instrumentation_line jvm ci ci' (mi_line c x a b d e) p id) _
                  (Keeps-perform_instrumentation_line jvm q t k id true free ci ci' c x a b d e p at
                    at')
                  (λ done. Keeps-when I (not done) (read_freed jvm >> prof_err_log_printf jvm) (
                    Keeps-then I (read_freed jvm) (prof_err_log_printf jvm)
                      (Keeps-read_freed I jvm readable) (Keeps-prof_err_log_printf I jvm)))))))

  -- the sides of one instrument in the queue
  abbrev IsSided : Type 0
  IsSided =
      (j : ℕ)
      → j < q.len
      → j ≢ k
      → (q.arr j).instrument_id ≡ id
      → (d : QiDetail) × (opposite (q.arr j).detail d ≡ true)

  -- A line that is ready waits nowhere.
  Free-ready :
      (c x : Bytes) (a b : ℕ) (s : Session)
      → IsSided
      → IsSound q t k s.ctx
      → mi_find s.ctx.master_instruments id ≡ some (mi_line c x a b false false)
      → Free q k id
  Free-ready c x a b s sided h found j lt ne same =
      let (d, sides) = sided j lt ne same in
      let (e, p, was, w, has, below) = h.owed j lt ne in
      let one : e ≡ mi_line c x a b false false =
        some_injective (sym was ∙ ap (mi_find s.ctx.master_instruments) same ∙ found) in
      absurd (not_waiting (q.arr j).detail (subst (λ y. waits (q.arr j).detail y ≡ true) one w))
    where
      not_waiting : (d : QiDetail) → waits d (mi_line c x a b false false) ≡ true → ⊥
      not_waiting (qi_method m) w = cc
      not_waiting (qi_line_enter l) w = cc
      not_waiting (qi_line_exit l) w = cc
      not_waiting (qi_var_bind v l) w = cc

  line_marked_lem :
      (s : Session) (p : ℕ) (r : Option MiEntry)
      → IsSided
      → I s.ctx
      → mi_find s.ctx.master_instruments id ≡ r
      → Ensures (λ a s'. I s'.ctx) (line_marked jvm r p id s)
  unfolding line_marked mi_line_is_ready
  line_marked_lem s p none sided i e = i
  line_marked_lem s p (some (mi_method c m d)) sided i e =
      let bad = i.2 refl (mi_method c m d) e in absurd (cc)
  line_marked_lem s p (some (mi_var_bind c v l d)) sided i e =
      let bad = i.2 refl (mi_var_bind c v l d) e in absurd (cc)
  line_marked_lem s p (some (mi_line c x a b true e')) sided i e = i
  line_marked_lem s p (some (mi_line c x a b false true)) sided i e = i
  line_marked_lem s p (some (mi_line c x a b false false)) sided i e =
      Keeps-apply_line (Free-ready c x a b s sided i.0 e) c x a b false false p s i

  do_deferred_line-Inv :
      (qi : QueuedInstr) (at_entry : Bool) (p : ℕ) (s : Session)
      → qi.profiler_id ≡ some p
      → qi.instrument_id ≡ id
      → IsSided
      → ((j : ℕ)
          → j < q.len
          → j ≢ k
          → (q.arr j).instrument_id ≡ id
          → passes (if at_entry then line_entry_mark else line_exit_mark) (q.arr j).detail ≡ true)
      → I s.ctx
      → Ensures (λ a s'. I s'.ctx) (do_deferred_line_instrumentation jvm qi at_entry s)
  unfolding do_deferred_line_instrumentation find_instrument
  do_deferred_line-Inv qi at_entry p s has same sided pass i = rw has (
      rw same (
        Ensures-bind (λ a s'. I s'.ctx) (λ a s'. I s'.ctx)
          (mark_applied (if at_entry then line_entry_mark else line_exit_mark) id) _ s
          (mark_applied_lem q t k id true (if at_entry then line_entry_mark else line_exit_mark)
            pass s i)
          (λ a s' i'. line_marked_lem s' p (mi_find s'.ctx.master_instruments id) sided i' refl)))

passes_enter :
    (d : QiDetail) (l : ℕ) → opposite d (qi_line_enter l) ≡ true → passes line_entry_mark d ≡ true
passes_enter (qi_method m) l h = cc
passes_enter (qi_line_enter m) l h = cc
passes_enter (qi_line_exit m) l h = refl
passes_enter (qi_var_bind v m) l h = cc

passes_exit :
    (d : QiDetail) (l : ℕ) → opposite d (qi_line_exit l) ≡ true → passes line_exit_mark d ≡ true
passes_exit (qi_method m) l h = cc
passes_exit (qi_line_enter m) l h = refl
passes_exit (qi_line_exit m) l h = cc
passes_exit (qi_var_bind v m) l h = cc

module _ (jvm : Jvm) (q : QueuedInstrList) (t : ClassInfoList) (ok : IsQueued q) (k : ℕ)
    (lt : k < q.len) (ci : ℕ) (listed : Listed t ci) (s : Session) (h : IsSound q t q.len s.ctx)
    (readable : (i : ℕ) → jvm.freed i ≡ true) where
  abbrev qi : QueuedInstr
  qi = q.arr k

  abbrev Done : Option (Unit {0} × Session) → Type 0
  Done r = Ensures (λ a s'. IsSound q t k s'.ctx) r

  method-Done :
      (m : Bytes) (e : MiEntry) (p : ℕ)
      → qi.detail ≡ qi_method m
      → waits (qi_method m) e ≡ true
      → mi_find s.ctx.master_instruments qi.instrument_id ≡ some e
      → qi.profiler_id ≡ some p
      → qi.instrument_id < s.ctx.master_instruments.next_id
      → Done (do_deferred_method_instrumentation jvm ci qi s)
  unfolding do_deferred_method_instrumentation
  method-Done m (mi_method c n d) p is w found has below = rw has (
      Ensures-bind (λ a s'. IsSound q t k s'.ctx) (λ a s'. IsSound q t k s'.ctx)
        (instrument_now jvm ci qi.instrument_id p) _ s
        (Ensures-weaken (λ a s'. Inv q t k qi.instrument_id false s'.ctx)
          (λ a s'. IsSound q t k s'.ctx) _
          (Ensures-instrument_now jvm q t k qi.instrument_id false (Free-method q k m ok lt is) ci c
            n d p s listed (IsSound-skip q t k s.ctx h, below, λ bad. cc) found)
          (λ a s' i. i.0))
        (λ status.
          Keeps-when (IsSound q t k) (not (status == instrument_rp_ok)) (prof_err_log_printf jvm)
            (Keeps-prof_err_log_printf (IsSound q t k) jvm)))
  method-Done m (mi_line c x a b d e) p is w found has below = cc
  method-Done m (mi_var_bind c v l d) p is w found has below = cc

  line-Done :
      (d : QiDetail) (at_entry : Bool) (e : MiEntry) (p : ℕ)
      → qi.detail ≡ d
      → is_line_entry e ≡ true
      → ((o : QiDetail)
          → opposite o d ≡ true
          → passes (if at_entry then line_entry_mark else line_exit_mark) o ≡ true)
      → mi_find s.ctx.master_instruments qi.instrument_id ≡ some e
      → qi.profiler_id ≡ some p
      → qi.instrument_id < s.ctx.master_instruments.next_id
      → Done (do_deferred_line_instrumentation jvm qi at_entry s)
  line-Done d at_entry e p is line pass found has below =
      let sides =
        λ (j : ℕ) (jl : j < q.len) (ne : j ≢ k) (same : (q.arr j).instrument_id ≡ qi.instrument_id).
          sided j jl ne same in
      Ensures-weaken (λ a s'. Inv q t k qi.instrument_id true s'.ctx) (λ a s'. IsSound q t k s'.ctx)
        _
        (do_deferred_line-Inv jvm q t k qi.instrument_id readable qi at_entry p s has refl
          (λ j jl ne same. (d, sides j jl ne same))
          (λ j jl ne same. pass (q.arr j).detail (sides j jl ne same))
          (
            IsSound-skip q t k s.ctx h,
            below,
            λ u f there.
                subst (λ x. is_line_entry x ≡ true) (some_injective (sym found ∙ there)) line,
          ))
        (λ a s' i. i.0)
    where
      sided :
          (j : ℕ)
          → j < q.len
          → j ≢ k
          → (q.arr j).instrument_id ≡ qi.instrument_id
          → opposite (q.arr j).detail d ≡ true
      sided j jl ne same = elim (ok.apart j k jl lt ne) [
        | inl other ↦ absurd (other same)
        | inr (o, p') ↦ subst (λ x. opposite (q.arr j).detail x ≡ true) is o
      ]

  waits_enter : (l : ℕ) (e : MiEntry) → waits (qi_line_enter l) e ≡ true → is_line_entry e ≡ true
  waits_enter l (mi_method c m d) w = cc
  waits_enter l (mi_line c x a b d e) w = refl
  waits_enter l (mi_var_bind c v n d) w = cc

  waits_exit : (l : ℕ) (e : MiEntry) → waits (qi_line_exit l) e ≡ true → is_line_entry e ≡ true
  waits_exit l (mi_method c m d) w = cc
  waits_exit l (mi_line c x a b d e) w = refl
  waits_exit l (mi_var_bind c v n d) w = cc

  pub do_deferred-Done : (d : QiDetail) → qi.detail ≡ d → Done (do_deferred jvm ci qi d s)
  unfolding do_deferred
  do_deferred-Done (qi_method m) is =
      let (e, p, found, w, has, below) = h.owed k lt (omega arith) in
      method-Done m e p is (subst (λ d. waits d e ≡ true) is w) found has below
  do_deferred-Done (qi_line_enter l) is =
      let (e, p, found, w, has, below) = h.owed k lt (omega arith) in
      line-Done (qi_line_enter l) true e p is (waits_enter l e (subst (λ d. waits d e ≡ true) is w))
        (λ o. passes_enter o l) found has below
  do_deferred-Done (qi_line_exit l) is =
      let (e, p, found, w, has, below) = h.owed k lt (omega arith) in
      line-Done (qi_line_exit l) false e p is (waits_exit l e (subst (λ d. waits d e ≡ true) is w))
        (λ o. passes_exit o l) found has below
  do_deferred-Done (qi_var_bind v l) is = IsSound-skip q t k s.ctx h
