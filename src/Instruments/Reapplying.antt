-- ===== src/Instruments/Reapplying.antt =====
-- instrument-handler.c: what is done with the instruments of a class that is loaded again keeps the
-- context sound.
use jauto_profiler_mcp.Prelude.{
  ap, ℕ, zero, suc, ◌⊎◌, ◌+◌, ◌≡◌, refl, sym, Bool, true, false, not, ◌&&◌, ◌||◌, Option, none,
  some, arith, subst, ◌==◌, ltb, inl, inr,
}
use jauto_profiler_mcp.HashTab.{Bytes, keycmp}
use jauto_profiler_mcp.ClassInfo.{
  ClassInfo, ClassInfoList, InstrumentType, instrument_enter, instrument_exit, ci_clear_instruments,
}
use jauto_profiler_mcp.Queued.{QueuedInstrList}
use jauto_profiler_mcp.MasterInstruments.{
  MiEntry, MasterInstruments, mi_method, mi_line, mi_var_bind, mi_find,
}
use jauto_profiler_mcp.Instruments.{
  Jvm, InstrCtx, Session, Action, pure, ◌>>=◌, ◌>>◌, when, class_of, remove_instrument,
  find_instrument, jni_remove_profiler, do_instrumentation, retransform_pending,
  prof_err_log_printf,
}
use jauto_profiler_mcp.Instruments.Apply.{remove_line}
use jauto_profiler_mcp.Instruments.Reapply.{
  is_enter, clean_other, cleanup_dangling, drop_line, cleanup_entry, cleanup_failed_line,
  drop_methods, drop_lines, remove_all, ih_reapply_instruments,
}
use jauto_profiler_mcp.Instruments.Ensures.{
  Ensures, Ensures-bind, Ensures-weaken, Keeps, Keeps-bind, Keeps-then, Keeps-pure, Keeps-when,
  Keeps-option, Keeps-gets, Keeps-jni_remove_profiler, Keeps-do_instrumentation,
  Keeps-retransform_pending,
}
use jauto_profiler_mcp.DynArr.{dynarr_init}
use jauto_profiler_mcp.Instruments.{clear_instruments}
use jauto_profiler_mcp.Instruments.Sound.{
  IsSound, IsSound-class, IsContext, IsContext-from, IsApplied, Free, Listed,
}
use jauto_profiler_mcp.Instruments.Steps.{Inv, Keeps-remove_instrument, Keeps-find_class}
use jauto_profiler_mcp.Instruments.Classes.{Keeps-remove_line}

-- Clearing a class, where the arrays can be allocated, leaves it without instruments.
cleared_lem :
    (methods_ok lines_ok : Bool) (c : ClassInfo)
    → methods_ok ≡ true
    → lines_ok ≡ true
    → (c' : ClassInfo) × (ci_clear_instruments methods_ok lines_ok c ≡ some c')
      × (c'.name ≡ c.name)
      × (c'.instrumented.len ≡ 0)
      × (c'.lines.len ≡ 0)
      × ((mi : MasterInstruments) (q : QueuedInstrList) (k : ℕ) → IsApplied mi q k c')
unfolding ci_clear_instruments dynarr_init
cleared_lem true true c m l = (
  _,
  refl,
  refl,
  refl,
  refl,
  λ mi q k. record {
    methods_valid = (omega arith, omega arith);
    lines_valid = (omega arith, omega arith);
    methods = λ j lt. absurd (omega arith);
    lines = λ j lt. absurd (omega arith);
  },
)
cleared_lem false l c m e = cc
cleared_lem true false c m e = cc

module _ (jvm : Jvm) (q : QueuedInstrList) (t : ClassInfoList)
    (clears : (i : ℕ) → jvm.cleared i ≡ true) where
  abbrev W : InstrCtx → Type 0
  W = IsSound q t q.len

  module _ (id : ℕ) (free : Free q q.len id) where
    abbrev I : InstrCtx → Type 0
    I = Inv q t q.len id true

    Keeps-clean_other : (name : Bytes) (l : ℕ) → Keeps I (clean_other jvm name l)
    unfolding clean_other
    Keeps-clean_other name l = Keeps-find_class q t q.len id true name _ (Keeps-pure I tt) (λ ci at.
        Keeps-bind I (remove_line ci l) _ (Keeps-remove_line q t q.len id true ci l at) (λ r.
          Keeps-gets I (λ s. class_of s ci) _
            (λ c.
              Keeps-bind I (do_instrumentation jvm c) _ (Keeps-do_instrumentation I jvm c)
                (λ new_bc. Keeps-option I new_bc (pure tt) _ (Keeps-pure I tt) (λ bc.
                  Keeps-bind I (retransform_pending jvm name c.loader none bc none) (λ ret. pure tt)
                    (Keeps-retransform_pending I jvm name c.loader none bc none)
                    (λ ret. Keeps-pure I tt))))))

    Keeps-cleanup_dangling :
        (c x : Bytes) (a b : ℕ) (type : InstrumentType)
        → Keeps I (cleanup_dangling jvm c x a b type)
    unfolding cleanup_dangling
    Keeps-cleanup_dangling c x a b instrument_enter = Keeps-clean_other x b
    Keeps-cleanup_dangling c x a b instrument_exit = Keeps-clean_other c a

    Keeps-drop_line : (drop : Bool) (p : ℕ) → Keeps I (drop_line jvm drop id p)
    unfolding drop_line
    Keeps-drop_line drop p = Keeps-when I drop _ (
        Keeps-then I (remove_instrument id) _ (Keeps-remove_instrument q t q.len id true free) (
          Keeps-bind I (jni_remove_profiler jvm p) (λ u. pure tt)
            (Keeps-jni_remove_profiler I jvm p) (λ u. Keeps-pure I tt)))

    cleanup_entry-Inv :
        (s : Session) (r : Option MiEntry) (type : InstrumentType) (n p : ℕ)
        → I s.ctx
        → mi_find s.ctx.master_instruments id ≡ r
        → Ensures
            (λ a s'. I s'.ctx)
            (cleanup_entry jvm r
              (record { line_number = n; profiler_id = p; instrument_id = id; type = type })
              s)
    unfolding cleanup_entry
    cleanup_entry-Inv s none type n p i e = Keeps-drop_line (is_enter type) p s i
    cleanup_entry-Inv s (some (mi_method c m d)) type n p i e =
        let bad = i.2 refl (mi_method c m d) e in absurd (cc)
    cleanup_entry-Inv s (some (mi_var_bind c v l d)) type n p i e =
        let bad = i.2 refl (mi_var_bind c v l d) e in absurd (cc)
    cleanup_entry-Inv s (some (mi_line c x a b d e')) type n p i e =
        Keeps-then I (when (not (keycmp c x)) (cleanup_dangling jvm c x a b type)) _
          (Keeps-when I (not (keycmp c x)) _ (Keeps-cleanup_dangling c x a b type))
          (Keeps-drop_line (is_enter type || not (keycmp c x)) p) s i

  -- One round of the first loop.
  drop_method-W :
      (ci i : ℕ) (s : Session)
      → Listed t ci
      → W s.ctx
      → (b : Bool) → ltb i (class_of s ci).instrumented.len ≡ b
      → Ensures
          (λ a s'. W s'.ctx)
          (when b
            (remove_instrument ((class_of s ci).instrumented.arr i).instrument_id
              >> (jni_remove_profiler jvm ((class_of s ci).instrumented.arr i).profiler_id >>= λ u.
                  pure tt))
            s)
  drop_method-W ci i s (name, at) h false e = h
  drop_method-W ci i s (name, at) h true e =
      let im = (class_of s ci).instrumented.arr i in
      let (below, free) = (h.classes name ci at).methods i (ground arith) in
      let K = Inv q t q.len im.instrument_id false in
      Ensures-weaken (λ a s'. K s'.ctx) (λ a s'. W s'.ctx) _
        (Keeps-then K (remove_instrument im.instrument_id) _
          (Keeps-remove_instrument q t q.len im.instrument_id false free)
          (Keeps-bind K (jni_remove_profiler jvm im.profiler_id) (λ u. pure tt)
            (Keeps-jni_remove_profiler K jvm im.profiler_id) (λ u. Keeps-pure K tt))
          s (h, below, λ bad. cc))
        (λ a s' i'. i'.0)

  Keeps-drop_methods : (n i ci : ℕ) → Listed t ci → Keeps W (drop_methods jvm n i ci)
  unfolding drop_methods
  Keeps-drop_methods zero i ci at = Keeps-pure W tt
  Keeps-drop_methods (suc n) i ci at = λ s h.
      Ensures-bind (λ a s'. W s'.ctx) (λ a s'. W s'.ctx)
        (when (ltb i (class_of s ci).instrumented.len) (
          remove_instrument ((class_of s ci).instrumented.arr i).instrument_id
          >> (jni_remove_profiler jvm ((class_of s ci).instrumented.arr i).profiler_id >>= λ u.
              pure tt)))
        (λ _. drop_methods jvm n (i + 1) ci) s (drop_method-W ci i s at h _ refl)
        (λ a s' h'. Keeps-drop_methods n (i + 1) ci at s' h')

  -- One round of the second loop.
  drop_line-W :
      (ci i : ℕ) (s : Session)
      → Listed t ci
      → W s.ctx
      → (b : Bool) → ltb i (class_of s ci).lines.len ≡ b
      → Ensures
          (λ a s'. W s'.ctx)
          (when b (cleanup_failed_line jvm ((class_of s ci).lines.arr i)) s)
  unfolding cleanup_failed_line find_instrument
  drop_line-W ci i s (name, at) h false e = h
  drop_line-W ci i s (name, at) h true e =
      let line = (class_of s ci).lines.arr i in
      let (placed, kind) = (h.classes name ci at).lines i (ground arith) in
      Ensures-weaken (λ a s'. Inv q t q.len line.instrument_id true s'.ctx) (λ a s'. W s'.ctx) _
        (cleanup_entry-Inv line.instrument_id placed.1 s
          (mi_find s.ctx.master_instruments line.instrument_id) line.type line.line_number
          line.profiler_id (h, placed.0, λ u. kind) refl)
        (λ a s' i'. i'.0)

  Keeps-drop_lines : (n i ci : ℕ) → Listed t ci → Keeps W (drop_lines jvm n i ci)
  unfolding drop_lines
  Keeps-drop_lines zero i ci at = Keeps-pure W tt
  Keeps-drop_lines (suc n) i ci at = λ s h.
      Ensures-bind (λ a s'. W s'.ctx) (λ a s'. W s'.ctx)
        (when (ltb i (class_of s ci).lines.len)
          (cleanup_failed_line jvm ((class_of s ci).lines.arr i)))
        (λ _. drop_lines jvm n (i + 1) ci) s (drop_line-W ci i s at h _ refl)
        (λ a s' h'. Keeps-drop_lines n (i + 1) ci at s' h')

  -- the class at an address has no instruments
  abbrev IsCleared : ℕ → Session → Type 0
  IsCleared ci s = ((class_of s ci).instrumented.len ≡ 0) × ((class_of s ci).lines.len ≡ 0)

  remove_all-W :
      (ci : ℕ) (s : Session)
      → Listed t ci
      → W s.ctx
      → Ensures (λ a s'. W s'.ctx × IsCleared ci s') (remove_all jvm ci s)
  unfolding remove_all prof_err_log_printf clear_instruments
  remove_all-W ci s at h =
      Ensures-bind (λ a s'. W s'.ctx) (λ a s'. W s'.ctx × IsCleared ci s')
        (drop_methods jvm (class_of s ci).instrumented.len 0 ci) _ _
        (Keeps-drop_methods (class_of s ci).instrumented.len 0 ci at _ h)
        (λ a s1 h1.
          Ensures-bind (λ a s'. W s'.ctx) (λ a s'. W s'.ctx × IsCleared ci s')
            (drop_lines jvm (class_of s ci).lines.len 0 ci) _ s1
            (Keeps-drop_lines (class_of s ci).lines.len 0 ci at s1 h1) (λ b s2 h2. cleared s2 h2))
    where
      cleared :
          (s2 : Session)
          → W s2.ctx
          → Ensures (λ a s'. W s'.ctx × IsCleared ci s') (clear_instruments jvm ci s2)
      cleared s2 h2 =
          let (c, run, same, no_methods, no_lines, applied) =
            cleared_lem (jvm.cleared s2.turn) (jvm.cleared (s2.turn + 1)) (class_of s2 ci)
              (clears s2.turn) (clears (s2.turn + 1)) in
          rw (Ensures, run)
            (
              IsSound-class q t q.len s2.ctx ci c h2 (applied s2.ctx.master_instruments q q.len)
                  same,
              (ground (arith, no_methods), ground (arith, no_lines)),
            )

module _ (jvm : Jvm) (ci : ℕ) (s : Session) (ok : IsContext s.ctx)
    (at : Listed s.ctx.loaded_classes ci) (clears : (i : ℕ) → jvm.cleared i ≡ true) where
  abbrev Unchanged : InstrCtx → Type 0
  Unchanged ctx = ctx ≡ s.ctx

  -- the list has the same classes; the context is as it was, or the class has no instruments left
  abbrev pub Reapplied : Session → Type 0
  Reapplied s' =
      IsContext s'.ctx
      × (s'.ctx.loaded_classes.tab ≡ s.ctx.loaded_classes.tab)
      × ((s'.ctx ≡ s.ctx)
          ⊎ ((class_of s' ci).instrumented.len ≡ 0) × ((class_of s' ci).lines.len ≡ 0))

  unchanged : (s' : Session) → s'.ctx ≡ s.ctx → Reapplied s'
  unchanged s' e = (subst IsContext (sym e) ok, ap (λ x. x.loaded_classes.tab) e, inl e)

  removed : (s' : Session) → s'.ctx ≡ s.ctx → Ensures (λ a s2. Reapplied s2) (remove_all jvm ci s')
  removed s' e =
      let q = s.ctx.queued_instruments in
      let t = s.ctx.loaded_classes in
      Ensures-weaken (λ a s2. IsSound q t q.len s2.ctx × IsCleared jvm q t clears ci s2)
        (λ a s2. Reapplied s2) _
        (remove_all-W jvm q t clears ci s' at (subst (IsSound q t q.len) (sym e) ok.sound))
        (λ a s2 r. (IsContext-from q t s2.ctx ok.queued ok.tab_valid r.0, r.0.tab_is, inr r.1))

  transformed :
      (b : Bool) (s' : Session)
      → s'.ctx ≡ s.ctx
      → Ensures (λ a s2. Reapplied s2) (when (not b) (remove_all jvm ci) s')
  transformed true s' e = unchanged s' e
  transformed false s' e = removed s' e

  rebuilt :
      (c : ClassInfo) (r : Option Bytes) (s' : Session)
      → s'.ctx ≡ s.ctx
      → Ensures
          (λ a s2. Reapplied s2)
          ((elim r as (λ _. Action (Unit {0})) [
            | none ↦ remove_all jvm ci
            | some bc ↦ retransform_pending jvm c.name c.loader none bc none >>= λ ret.
                when (not ret) (remove_all jvm ci)
          ])
            s')
  rebuilt c none s' e = removed s' e
  rebuilt c (some bc) s' e =
      Ensures-bind (λ a s2. Unchanged s2.ctx) (λ a s2. Reapplied s2)
        (retransform_pending jvm c.name c.loader none bc none) _ s'
        (Keeps-retransform_pending Unchanged jvm c.name c.loader none bc none s' e)
        (λ ret s2 e2. transformed ret s2 e2)

  reapply_if :
      (b : Bool)
      → Ensures
          (λ a s'. Reapplied s')
          (when b
            (do_instrumentation jvm (class_of s ci) >>= λ new_bc. elim new_bc [
              | none ↦ remove_all jvm ci
              | some bc ↦
                  retransform_pending jvm (class_of s ci).name (class_of s ci).loader none bc none
                  >>= λ ret. when (not ret) (remove_all jvm ci)
            ])
            s)
  reapply_if false = unchanged s refl
  reapply_if true =
      Ensures-bind (λ a s'. Unchanged s'.ctx) (λ a s'. Reapplied s')
        (do_instrumentation jvm (class_of s ci)) _ s
        (Keeps-do_instrumentation Unchanged jvm (class_of s ci) s refl)
        (λ new_bc s' e. rebuilt (class_of s ci) new_bc s' e)

  -- Loading a class again, after it has taken over the instruments of its predecessor, has a result
  -- and keeps the context sound and the classes of the list, whatever the JVM answers, where the two
  -- small arrays of the class that is cleared can be allocated: the context is as it was, or the class
  -- has no instruments left.
  pub ih_reapply_instruments-Reapplied :
      Ensures
        (λ a s'.
          IsContext s'.ctx
          × (s'.ctx.loaded_classes.tab ≡ s.ctx.loaded_classes.tab)
          × ((s'.ctx ≡ s.ctx)
              ⊎ ((class_of s' ci).instrumented.len ≡ 0) × ((class_of s' ci).lines.len ≡ 0)))
        (ih_reapply_instruments jvm ci s)
  unfolding ih_reapply_instruments
  ih_reapply_instruments-Reapplied =
      reapply_if (not ((class_of s ci).instrumented.len == 0 && (class_of s ci).lines.len == 0))
