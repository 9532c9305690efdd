-- ===== src/Instruments/Removing.antt =====
-- instrument-handler.c: taking an instrument out keeps the context sound, and success means that the
-- instrument is gone.
use jauto_profiler_mcp.Prelude.{
  ◌⊎◌, inl, inr, some_injective, ℕ, ◌^◌, ◌<◌, ◌≡◌, refl, ap, ◌∙◌, sym, inl, inr, Bool, true, false,
  Option, none, some, subst, ◌==◌, if◌then◌else◌,
}
use jauto_profiler_mcp.HashTab.{Bytes}
use jauto_profiler_mcp.ClassInfo.{ClassInfoList}
use jauto_profiler_mcp.Queued.{
  QueuedInstrList, QiDetail, qi_method, qi_line_enter, qi_line_exit, qi_var_bind,
}
use jauto_profiler_mcp.MasterInstruments.{
  MiEntry, mi_method, mi_line, mi_var_bind, mi_find, mi_line_is_ready,
}
use jauto_profiler_mcp.MasterInstruments.Registry.{found_below}
use jauto_profiler_mcp.Instruments.{
  Jvm, InstrCtx, Session, Action, pure, ◌>>◌, class_of, remove_instrument, find_instrument,
  jni_remove_profiler, do_instrumentation, retransform_pending,
}
use jauto_profiler_mcp.Instruments.Apply.{remove_line, remove_by_sig}
use jauto_profiler_mcp.Instruments.Deferred.{remove_queued_instr_by_id}
use jauto_profiler_mcp.Instruments.Remove.{
  deinstrument_rp_ok, deinstrument_rp_fail, remove_profiler_of, drop_deferred, rebuild,
  line_cleanup, remove_applied_line, deinstrument_line_by_id, method_taken_out,
  deinstrument_method_by_id, deinstrument_entry, ih_deinstrument_by_id,
}
use jauto_profiler_mcp.Instruments.Ensures.{
  Ensures, Ensures-bind, Keeps, Keeps-bind, Keeps-pure, Keeps-if, Keeps-option, Keeps-gets,
  Keeps-jni_remove_profiler, Keeps-do_instrumentation, Keeps-retransform_pending, Ends, Ends-bind,
  Ends-option, Ends-find_class,
}
use jauto_profiler_mcp.Instruments.Sound.{IsContext, IsContext-from, Free, Listed, waits}
use jauto_profiler_mcp.Instruments.Steps.{Inv, remove_instrument_lem}
use jauto_profiler_mcp.Instruments.Classes.{Keeps-remove_line, Keeps-remove_by_sig}
use jauto_profiler_mcp.Instruments.Dropping.{Dropped, remove_queued_instr_by_id-Dropped}

-- The context is sound, and the call failed or nothing is found under the id.
abbrev pub IsGone : ℕ → ℕ → InstrCtx → Type 0
IsGone id status ctx =
    IsContext ctx × ((status ≡ deinstrument_rp_fail) ⊎ (mi_find ctx.master_instruments id ≡ none))

failed : (id : ℕ) (ctx : InstrCtx) → IsContext ctx → IsGone id deinstrument_rp_fail ctx
failed id ctx ok = (ok, inl refl)

-- Making the bytecode anew leaves the context alone.
pub Keeps-rebuild : (I : InstrCtx → Type 0) (jvm : Jvm) (ci : ℕ) → Keeps I (rebuild jvm ci)
unfolding rebuild
Keeps-rebuild I jvm ci =
    Keeps-gets I (λ s. class_of s ci) _
      (λ c. Keeps-bind I (do_instrumentation jvm c) _ (Keeps-do_instrumentation I jvm c) (λ new_bc.
        Keeps-option I new_bc (pure false) _ (Keeps-pure I false) (λ bc.
          Keeps-bind I (retransform_pending jvm c.name c.loader none bc none) (λ ret. pure true)
            (Keeps-retransform_pending I jvm c.name c.loader none bc none)
            (λ ret. Keeps-pure I true))))

Keeps-remove_profiler_of :
    (I : InstrCtx → Type 0) (jvm : Jvm) (p : Option ℕ) → Keeps I (remove_profiler_of jvm p)
unfolding remove_profiler_of
Keeps-remove_profiler_of I jvm none = λ s i. i
Keeps-remove_profiler_of I jvm (some p) =
    Keeps-bind I (jni_remove_profiler jvm p) (λ u. pure tt) (Keeps-jni_remove_profiler I jvm p)
      (λ u. Keeps-pure I tt)

module _ (jvm : Jvm) (s : Session) (ok : IsContext s.ctx) (id : ℕ) (e : MiEntry)
    (range : id < 2 ^ 64) (found : mi_find s.ctx.master_instruments id ≡ some e) where
  abbrev q : QueuedInstrList
  q = s.ctx.queued_instruments

  abbrev t : ClassInfoList
  t = s.ctx.loaded_classes

  below : id < s.ctx.master_instruments.next_id
  below = found_below s.ctx.master_instruments id e ok.sound.registry range found

  drop_deferred-IsGone : Ensures (λ a s'. IsGone id a s'.ctx) (drop_deferred jvm id s)
  unfolding drop_deferred
  drop_deferred-IsGone =
      Ensures-bind (λ a s'. Dropped t id s.ctx s'.ctx) (λ a s'. IsGone id a s'.ctx)
        (remove_queued_instr_by_id id) _ s
        (remove_queued_instr_by_id-Dropped t id s (ok.queued, ok.sound))
        (λ p s1 dropped.
          Ends-bind (Dropped t id s.ctx) (IsGone id) (remove_profiler_of jvm p) _
            (Keeps-remove_profiler_of (Dropped t id s.ctx) jvm p)
            (λ u s2 d.
              let ((queued, h), free, reg) = d in
              Ensures-bind
                (λ a s'.
                  Inv s2.ctx.queued_instruments t s2.ctx.queued_instruments.len id false s'.ctx
                  × (mi_find s'.ctx.master_instruments id ≡ none))
                (λ a s'. IsGone id a s'.ctx) (remove_instrument id) _ s2
                (remove_instrument_lem s2.ctx.queued_instruments t s2.ctx.queued_instruments.len id
                  false free s2 (h, subst (λ x. id < x.next_id) (sym reg) below, λ bad. cc))
                (λ a s3 i. (
                  IsContext-from s2.ctx.queued_instruments t s3.ctx queued ok.tab_valid i.0.0,
                  inr i.1,
                )))
            s1 dropped)

  abbrev I : InstrCtx → Type 0
  I = Inv q t q.len id false

  abbrev Gone : InstrCtx → Type 0
  Gone ctx = I ctx × (mi_find ctx.master_instruments id ≡ none)

  started : I s.ctx
  started = (ok.sound, below, λ bad. cc)

  still : (ctx : InstrCtx) → I ctx → IsContext ctx
  still ctx i = IsContext-from q t ctx ok.queued ok.tab_valid i.0

  tab_known : (ctx : InstrCtx) → I ctx → ctx.loaded_classes.tab ≡ t.tab
  tab_known ctx i = i.0.tab_is

  gone_end : (status : ℕ) (ctx : InstrCtx) → Gone ctx → IsGone id status ctx
  gone_end status ctx g = (still ctx g.0, inr g.1)

  fail_end : Ends I (IsGone id) (pure deinstrument_rp_fail)
  fail_end s1 i = failed id s1.ctx (still s1.ctx i)

  -- An instrument that waits for nothing is not in the queue.
  Free-applied : ((d : QiDetail) → waits d e ≡ false) → Free q q.len id
  Free-applied applied j lt ne same =
      let (e0, p, was, w, has, low) = ok.sound.owed j lt ne in
      let one : e0 ≡ e =
        some_injective (sym was ∙ ap (mi_find s.ctx.master_instruments) same ∙ found) in
      let not_waiting = applied (q.arr j).detail in
      let waiting = subst (λ x. waits (q.arr j).detail x ≡ true) one w in cc

  module _ (free : Free q q.len id) where
    -- The instrument is removed from the registry, and then its profiler.
    Ends-remove :
        (m : Action (Unit {0})) (status : ℕ)
        → Keeps Gone m
        → Ends I (IsGone id) (remove_instrument id >> (m >> pure status))
    Ends-remove m status k s1 i =
        Ensures-bind (λ a s'. Gone s'.ctx) (λ a s'. IsGone id a s'.ctx) (remove_instrument id)
          (λ _. m >> pure status) s1 (remove_instrument_lem q t q.len id false free s1 i)
          (λ a s2 g.
            Ends-bind Gone (IsGone id) m (λ _. pure status) k (λ u s3 g3. gone_end status s3.ctx g3)
              s2 g)

    Ends-remove_applied_line :
        (ci_entry ci_exit a b : ℕ)
        → Listed t ci_entry
        → Listed t ci_exit
        → Ends I (IsGone id) (remove_applied_line jvm ci_entry ci_exit a b id)
    unfolding remove_applied_line line_cleanup
    Ends-remove_applied_line ci_entry ci_exit a b at at' =
        Ends-bind I (IsGone id) (remove_line ci_entry a) _
          (Keeps-remove_line q t q.len id false ci_entry a at)
          (λ p.
            Ends-bind I (IsGone id) (remove_line ci_exit b) _
              (Keeps-remove_line q t q.len id false ci_exit b at')
              (λ p'.
                Ends-bind I (IsGone id) (rebuild jvm ci_entry) _ (Keeps-rebuild I jvm ci_entry)
                  (λ entry_done.
                    Ends-bind I (IsGone id)
                      (if entry_done
                        then if ci_exit == ci_entry then pure true else rebuild jvm ci_exit
                        else pure false)
                      _
                      (Keeps-if I entry_done _ _
                        (Keeps-if I (ci_exit == ci_entry) _ _ (Keeps-pure I true)
                          (Keeps-rebuild I jvm ci_exit))
                        (Keeps-pure I false))
                      (λ done.
                        Ends-remove (remove_profiler_of jvm p)
                          (if done then deinstrument_rp_ok else deinstrument_rp_fail)
                          (Keeps-remove_profiler_of Gone jvm p)))))

    Ends-method_taken_out :
        (ci : ℕ) (c : Bytes) (p : ℕ) → Ends I (IsGone id) (method_taken_out jvm ci c p id)
    unfolding method_taken_out
    Ends-method_taken_out ci c p s1 =
        Ends-bind I (IsGone id) (do_instrumentation jvm (class_of s1 ci)) _
          (Keeps-do_instrumentation I jvm (class_of s1 ci))
          (λ new_bc.
            Ends-bind I (IsGone id)
              (elim new_bc as (λ _. Action Bool) [
                | none ↦ pure false
                | some bc ↦ retransform_pending jvm c (class_of s1 ci).loader none bc none
              ])
              _
              (Keeps-option I new_bc (pure false) _ (Keeps-pure I false)
                (λ bc. Keeps-retransform_pending I jvm c (class_of s1 ci).loader none bc none))
              (λ done s2 i2.
                Ensures-bind (λ a s'. Gone s'.ctx) (λ a s'. IsGone id a s'.ctx)
                  (remove_instrument id) _ s2 (remove_instrument_lem q t q.len id false free s2 i2)
                  (λ a s3 g.
                    Ends-bind Gone (IsGone id) (jni_remove_profiler jvm p) _
                      (Keeps-jni_remove_profiler Gone jvm p) (λ u s4 g4. gone_end _ s4.ctx g4) s3
                      g)))
          s1

module _ (jvm : Jvm) (s : Session) (ok : IsContext s.ctx) (id : ℕ) (range : id < 2 ^ 64) where
  -- Taking out an entry that was found.
  pub deinstrument_entry-IsGone :
      (e : MiEntry)
      → mi_find s.ctx.master_instruments id ≡ some e
      → Ensures (λ a s'. IsGone id a s'.ctx) (deinstrument_entry jvm e id s)
  unfolding deinstrument_entry deinstrument_method_by_id deinstrument_line_by_id mi_line_is_ready
  deinstrument_entry-IsGone (mi_var_bind c v l d) found = failed id s.ctx ok
  deinstrument_entry-IsGone (mi_method c m true) found =
      drop_deferred-IsGone jvm s ok id (mi_method c m true) range found
  deinstrument_entry-IsGone (mi_line c x a b true e) found =
      drop_deferred-IsGone jvm s ok id (mi_line c x a b true e) range found
  deinstrument_entry-IsGone (mi_line c x a b false true) found =
      drop_deferred-IsGone jvm s ok id (mi_line c x a b false true) range found
  deinstrument_entry-IsGone (mi_method c m false) found =
      let e = mi_method c m false in
      let free = Free-applied jvm s ok id e range found applied in
      let K = I jvm s ok id e range found in
      let fails = fail_end jvm s ok id e range found in
      Ends-find_class K (IsGone id) s.ctx.loaded_classes c _ (tab_known jvm s ok id e range found)
        fails
        (λ ci at.
          Ends-bind K (IsGone id) (remove_by_sig ci m) _
            (Keeps-remove_by_sig s.ctx.queued_instruments s.ctx.loaded_classes
              s.ctx.queued_instruments.len id false ci m (c, at))
            (λ removed.
              Ends-option K (IsGone id) removed _ _ fails
                (λ ids. Ends-method_taken_out jvm s ok id e range found free ci c ids.0)))
        s (started jvm s ok id e range found)
    where
      applied : (d : QiDetail) → waits d (mi_method c m false) ≡ false
      applied (qi_method n) = refl
      applied (qi_line_enter l) = refl
      applied (qi_line_exit l) = refl
      applied (qi_var_bind v l) = refl
  deinstrument_entry-IsGone (mi_line c x a b false false) found =
      let e = mi_line c x a b false false in
      let free = Free-applied jvm s ok id e range found applied in
      let K = I jvm s ok id e range found in
      let fails = fail_end jvm s ok id e range found in
      let tab_is = tab_known jvm s ok id e range found in
      Ends-find_class K (IsGone id) s.ctx.loaded_classes c _ tab_is
        (Ends-find_class K (IsGone id) s.ctx.loaded_classes x _ tab_is fails (λ ci at. fails))
        (λ ci at. Ends-find_class K (IsGone id) s.ctx.loaded_classes x _ tab_is fails (λ ci' at'.
          Ends-remove_applied_line jvm s ok id e range found free ci ci' a b (c, at) (x, at')))
        s (started jvm s ok id e range found)
    where
      applied : (d : QiDetail) → waits d (mi_line c x a b false false) ≡ false
      applied (qi_method n) = refl
      applied (qi_line_enter l) = refl
      applied (qi_line_exit l) = refl
      applied (qi_var_bind v l) = refl

  -- Taking out an instrument by its id, a number of 64 bits, has a result on a sound context: no
  -- assertion on the queue fails. Then the context is sound, and the call reports that it
  -- failed or no instrument is found under the id.
  pub ih_deinstrument_by_id-IsGone :
      Ensures (λ status s'. IsGone id status s'.ctx) (ih_deinstrument_by_id jvm id s)
  unfolding ih_deinstrument_by_id find_instrument
  ih_deinstrument_by_id-IsGone = found (mi_find s.ctx.master_instruments id) refl
    where
      found :
          (r : Option MiEntry)
          → mi_find s.ctx.master_instruments id ≡ r
          → Ensures
              (λ status s'. IsGone id status s'.ctx)
              ((elim r as (λ _. Action ℕ) [
                | none ↦ pure deinstrument_rp_fail
                | some e ↦ deinstrument_entry jvm e id
              ])
                s)
      found none e = failed id s.ctx ok
      found (some e) is = deinstrument_entry-IsGone e is
