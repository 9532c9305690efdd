-- ===== src/Instruments/Lines.antt =====
-- instrument-handler.c: the request to instrument from one line to another.
use jauto_profiler_mcp.Prelude.{
  Bool-cases, ℕ, ◌+◌, ◌^◌, ◌<◌, ◌≡◌, refl, ap, ◌∙◌, sym, ◌⊎◌, inl, inr, Bool, true, false, not,
  ◌&&◌, Option, none, some, arith, subst, ◌==◌, if◌then◌else◌, ℕ_discrete,
}
use jauto_profiler_mcp.HashTab.{Bytes, keycmp}
use jauto_profiler_mcp.DynArr.{dynarr_add}
use jauto_profiler_mcp.DynArr.All.{dynarr_add-IsLonger}
use jauto_profiler_mcp.ClassInfo.{ClassInfoList}
use jauto_profiler_mcp.Queued.{
  QueuedInstr, QueuedInstrList, queued_instr_line_add, queued_instr_line_init,
}
use jauto_profiler_mcp.MasterInstruments.{
  MiEntry, mi_line, mi_mark_applied, marked, line_entry_mark, mi_add_line, add_entry,
}
use jauto_profiler_mcp.Instruments.{
  Jvm, InstrCtx, Session, Action, pure, ◌>>=◌, ◌>>◌, remove_instrument, mark_applied, malloc,
  jni_create_profiler, jni_remove_profiler, set_queue, find_class,
}
use jauto_profiler_mcp.Instruments.Apply.{populate_class_info_line, perform_instrumentation_line}
use jauto_profiler_mcp.Instruments.Deferred.{
  queue_line, unqueue_line, instrument_later_line, instrument_line_rp_ok, instrument_line_rp_error,
  is_some,
}
use jauto_profiler_mcp.Instruments.Handle.{
  add_instrument, line_now, line_later, line_added, ih_instrument_line,
}
use jauto_profiler_mcp.Instruments.Ensures.{
  Ensures, Ensures-bind, Keeps-bind, Keeps-then, Keeps-pure, Keeps-if, Keeps-jni_create_profiler,
  Keeps-jni_remove_profiler, Takes, Takes-bind, Takes-first, Takes-option,
}
use jauto_profiler_mcp.Instruments.Sound.{IsSound, IsList, IsQueued, IsContext, Free, Listed}
use jauto_profiler_mcp.Instruments.Steps.{Inv, Keeps-remove_instrument, mark_applied_lem}
use jauto_profiler_mcp.Instruments.Queue.{IsQueued-added, IsSound-added}
use jauto_profiler_mcp.Instruments.Dropping.{IsWell}
use jauto_profiler_mcp.Instruments.Applying.{
  Keeps-perform_instrumentation_line, Keeps-populate_class_info_line,
}
use jauto_profiler_mcp.Instruments.LineExit.{
  mark_applied_found, IsMid, IsBelow, exit_side, exit_side-IsContext, unqueue_line-IsContext,
}
use jauto_profiler_mcp.Instruments.Adding.{
  IsFresh, IsMade, add_instrument-IsMade, Takes-Known, Takes-remove, Takes-find_class,
}

module _ (jvm : Jvm) (t : ClassInfoList) (valid : IsList t) (id p : ℕ) (c x : Bytes) (a b : ℕ)
    (q : QueuedInstrList) (queued : IsQueued q) (free : Free q q.len id) where
  abbrev New : InstrCtx → Type 0
  New = IsFresh q t id (mi_line c x a b true true)

  New-IsWell : (ctx : InstrCtx) → New ctx → IsWell t ctx
  New-IsWell ctx i = (
    subst IsQueued (sym i.0.0.queue_is) queued,
    subst (λ y. IsSound y t y.len ctx) (sym i.0.0.queue_is) i.0.0,
  )

  -- the entry side: it failed, or the exit side is next
  abbrev IsEntered : Bool → InstrCtx → Type 0
  IsEntered done ctx =
      (done ≡ false) × IsBelow jvm t valid id p c x a b ctx
      ⊎ (done ≡ true) × IsMid jvm t valid id p c x a b ctx

  queue_entry-IsEntered :
      (s : Session)
      → New s.ctx
      → Ensures (λ done s'. IsEntered done s'.ctx) (queue_line jvm c a p id true s)
  unfolding queue_line queued_instr_line_add queued_instr_line_init malloc
  queue_entry-IsEntered s i =
      added
        (dynarr_add (jvm.malloc s.turn) s.ctx.queued_instruments
          (queued_instr_line_init c a p id true))
        (ap (λ y. dynarr_add (jvm.malloc s.turn) y (queued_instr_line_init c a p id true))
          (sym i.0.0.queue_is))
    where
      added :
          (r : Option QueuedInstrList)
          → dynarr_add (jvm.malloc s.turn) q (queued_instr_line_init c a p id true) ≡ r
          → Ensures
              (λ done s'. IsEntered done s'.ctx)
              ((elim r as (λ _. Action Bool) [
                | none ↦ pure false
                | some q' ↦ set_queue q' >> malloc jvm
              ])
                (record s { turn = s.turn + 1 }))
      added none e = inl (refl, (New-IsWell s.ctx i, i.0.1))
      added (some q') e =
          let qi = queued_instr_line_init c a p id true in
          let ((h, below, line), found, without) = i in
          let long = dynarr_add-IsLonger q q' queued.valid (jvm.malloc s.turn) qi e in
          let (v, len, last, before) = long in
          let ctx' : InstrCtx = record s.ctx { queued_instruments = q' } in
          let well : IsWell t ctx' = (
            IsQueued-added q q' queued qi long (λ j lt.
                (inl (free j lt (omega arith)), inl (λ same. free j lt (omega arith) (sym same)))),
            IsSound-added q q' queued qi long t s.ctx h
                (mi_line c x a b true true, p, found, refl, refl, below)
                (λ name k at applied. without name k at),
          ) in
          elim (Bool-cases (jvm.malloc (s.turn + 1))) [
            | inr bad ↦ inl (bad, (well, below))
            | inl good ↦ inr (
              good,
              record {
                well = well;
                below = below;
                deferred = true;
                found = found;
                entered = λ j lt same. elim (ℕ_discrete j q.len) [
                  | yes at ↦ (
                    a,
                    ap (λ (y : QueuedInstr). y.detail) (ap q'.arr at ∙ last),
                    ap (λ (y : QueuedInstr). y.profiler_id) (ap q'.arr at ∙ last),
                  )
                  | no other ↦ absurd (
                      free j (omega (arith, len)) other (
                        ap (λ (y : QueuedInstr). y.instrument_id)
                          (sym (before j (omega (arith, len))))
                        ∙ same))
                ];
                without = without;
              },
            )
          ]

  mark_entry-IsMid :
      (s : Session)
      → New s.ctx
      → Ensures (λ u s'. IsMid jvm t valid id p c x a b s'.ctx) (mark_applied line_entry_mark id s)
  unfolding mark_applied marked
  mark_entry-IsMid s i =
      let ((h, below, line), found, without) = i in
      let kept =
        mark_applied_lem q t q.len id true line_entry_mark
          (λ j lt ne same. absurd (free j lt ne same)) s i.0 in
      record {
        well = (
          subst IsQueued (sym kept.0.queue_is) queued,
          subst
              (λ y. IsSound y t y.len (record s.ctx {
                master_instruments =
                    (mi_mark_applied line_entry_mark s.ctx.master_instruments id).0;
              }))
              (sym kept.0.queue_is) kept.0,
        );
        below = kept.1;
        deferred = false;
        found =
            mark_applied_found line_entry_mark id (mi_line c x a b true true)
              (mi_line c x a b false true) s.ctx.master_instruments h.registry
              (omega (arith, below, h.registry.in_range)) found refl;
        entered = λ j lt same. absurd (
            free j (subst (λ (y : QueuedInstrList). j < y.len) kept.0.queue_is lt)
              (λ e. omega (arith, e, subst (λ (y : QueuedInstrList). j < y.len) kept.0.queue_is lt))
              (subst (λ (y : QueuedInstrList). (y.arr j).instrument_id ≡ id) kept.0.queue_is same));
        without = without;
      }

  instrument_later_line-IsContext :
      (entry_loaded exit_loaded : Bool) (s : Session)
      → New s.ctx
      → Ensures
          (λ r s'. IsContext s'.ctx)
          (instrument_later_line jvm c x a b p id entry_loaded exit_loaded s)
  unfolding instrument_later_line exit_side mark_applied
  instrument_later_line-IsContext false exit_loaded s i =
      Ensures-bind (λ done s'. IsEntered done s'.ctx) (λ r s'. IsContext s'.ctx)
        (queue_line jvm c a p id true) _ s (queue_entry-IsEntered s i)
        (λ done s' r. ended done s' r)
    where
      ended :
          (done : Bool) (s' : Session)
          → IsEntered done s'.ctx
          → Ensures
              (λ r s2. IsContext s2.ctx)
              ((if not done
                  then unqueue_line jvm id
                  else exit_side jvm t valid id p c x a b (not exit_loaded && not (keycmp c x)))
                s')
      ended done s' (inl (e, (well, below))) =
          rw e (unqueue_line-IsContext jvm t valid id p c x a b s' well below)
      ended done s' (inr (e, mid)) = rw e (
          exit_side-IsContext jvm t valid id p c x a b (not exit_loaded && not (keycmp c x)) s' mid)
  instrument_later_line-IsContext true exit_loaded s i =
      Ensures-bind (λ u s'. IsMid jvm t valid id p c x a b s'.ctx) (λ r s'. IsContext s'.ctx)
        (mark_applied line_entry_mark id)
        (λ u. exit_side jvm t valid id p c x a b (not exit_loaded && not (keycmp c x))) s
        (mark_entry-IsMid s i)
        (λ u s' mid.
          exit_side-IsContext jvm t valid id p c x a b (not exit_loaded && not (keycmp c x)) s' mid)

  line_later-IsContext :
      (entry_loaded exit_loaded : Bool)
      → Takes New IsContext (line_later jvm c x a b p id entry_loaded exit_loaded)
  unfolding line_later
  line_later-IsContext entry_loaded exit_loaded =
      Takes-first New IsContext (instrument_later_line jvm c x a b p id entry_loaded exit_loaded) _
        (instrument_later_line-IsContext entry_loaded exit_loaded)
        (λ status.
          Keeps-if IsContext (status == instrument_line_rp_error) _ (pure status)
            (Keeps-bind IsContext (jni_remove_profiler jvm p) _
              (Keeps-jni_remove_profiler IsContext jvm p) (λ u. Keeps-pure IsContext status))
            (Keeps-pure IsContext status))

  line_now-IsContext :
      (ci ci' : ℕ)
      → Listed t ci
      → Listed t ci'
      → Takes New IsContext (line_now jvm ci ci' (mi_line c x a b true true) p id)
  unfolding line_now
  line_now-IsContext ci ci' at at' =
      let e = mi_line c x a b true true in
      let K = Inv q t q.len id true in
      Takes-Known jvm q t queued valid id free e _ (
        Keeps-bind K (populate_class_info_line jvm ci ci' e p id) _
          (Keeps-populate_class_info_line jvm q t q.len id true free ci ci' c x a b true true p refl
            at at')
          (λ populated.
            Keeps-if K (not populated) _ _
              (Keeps-bind K (jni_remove_profiler jvm p) _ (Keeps-jni_remove_profiler K jvm p) (λ u.
                Keeps-then K (remove_instrument id) (pure instrument_line_rp_error)
                  (Keeps-remove_instrument q t q.len id true free)
                  (Keeps-pure K instrument_line_rp_error)))
              (Keeps-bind K (perform_instrumentation_line jvm ci ci' e p id) _
                (Keeps-perform_instrumentation_line jvm q t q.len id true free ci ci' c x a b true
                  true p at at')
                (λ done.
                  Keeps-pure K
                    (if done then instrument_line_rp_ok else instrument_line_rp_error)))))

-- a class of the list, or none
abbrev IsListed : ClassInfoList → Option ℕ → Type 0
IsListed t none = Unit {0}
IsListed t (some ci) = Listed t ci

module _ (jvm : Jvm) (q : QueuedInstrList) (t : ClassInfoList) (queued : IsQueued q)
    (valid : IsList t) (id : ℕ) (free : Free q q.len id) (e : MiEntry) where
  Takes-find_classes :
      {B : Type 0} (c x : Bytes) (f : Option ℕ → Option ℕ → Action B)
      → ((entry exit : Option ℕ)
          → IsListed t entry
          → IsListed t exit
          → Takes (IsFresh q t id e) IsContext (f entry exit))
      → Takes
          (IsFresh q t id e)
          IsContext
          (find_class c >>= λ entry. find_class x >>= λ exit. f entry exit)
  Takes-find_classes c x f h =
      Takes-find_class jvm q t queued valid id free e c _
        (Takes-find_class jvm q t queued valid id free e x _ (h none none tt tt)
          (λ ci' at'. h none (some ci') tt at'))
        (λ ci at.
          Takes-find_class jvm q t queued valid id free e x _ (h (some ci) none at tt)
            (λ ci' at'. h (some ci) (some ci') at at'))

module _ (jvm : Jvm) (c x : Bytes) (a b : ℕ) where
  line_added-IsContext :
      (q : QueuedInstrList) (t : ClassInfoList) (id : ℕ)
      → IsQueued q
      → IsList t
      → Free q q.len id
      → Takes (IsFresh q t id (mi_line c x a b true true)) IsContext (line_added jvm c x a b id)
  unfolding line_added
  line_added-IsContext q t id queued valid free =
      let e = mi_line c x a b true true in
      let New = IsFresh q t id e in
      Takes-find_classes jvm q t queued valid id free e c x _ (λ entry exit atc atx.
        Takes-bind New IsContext (jni_create_profiler jvm id) _
          (Keeps-jni_create_profiler New jvm id)
          (λ r.
            Takes-option New IsContext r _ _
              (Takes-remove jvm q t queued valid id free e instrument_line_rp_error)
              (λ p. sides p entry exit atc atx)))
    where
      sides :
          (p : ℕ) (entry exit : Option ℕ)
          → IsListed t entry
          → IsListed t exit
          → Takes
              (IsFresh q t id (mi_line c x a b true true))
              IsContext
              (elim entry as (λ _. Action ℕ) [
                | none ↦ line_later jvm c x a b p id false (is_some exit)
                | some ci ↦ elim exit as (λ _. Action ℕ) [
                  | none ↦ line_later jvm c x a b p id true false
                  | some ci' ↦ line_now jvm ci ci' (mi_line c x a b true true) p id
                ]
              ])
      sides p none exit atc atx =
          line_later-IsContext jvm t valid id p c x a b q queued free false (is_some exit)
      sides p (some ci) none atc atx =
          line_later-IsContext jvm t valid id p c x a b q queued free true false
      sides p (some ci) (some ci') atc atx =
          line_now-IsContext jvm t valid id p c x a b q queued free ci ci' atc atx

  -- A request to instrument from one line to another has a result and keeps the context sound,
  -- whatever the JVM and the allocator answer and whichever of the classes are loaded, before the
  -- last of the 2 ^ 64 ids.
  pub ih_instrument_line-IsContext :
      (s : Session)
      → IsContext s.ctx
      → s.ctx.master_instruments.next_id + 1 < 2 ^ 64
      → Ensures (λ r s'. IsContext s'.ctx) (ih_instrument_line jvm c x a b s)
  unfolding ih_instrument_line mi_add_line
  ih_instrument_line-IsContext s ok last =
      let e = mi_line c x a b true true in
      Ensures-bind (λ id s'. IsMade s.ctx.queued_instruments s.ctx.loaded_classes e id s'.ctx)
        (λ r s'. IsContext s'.ctx) (add_instrument jvm (λ mem mi. add_entry mem mi e)) _ s
        (add_instrument-IsMade jvm s e ok last) (λ id s' h. goes_on id s' h)
    where
      goes_on :
          (id : ℕ) (s' : Session)
          → IsMade s.ctx.queued_instruments s.ctx.loaded_classes
              (mi_line c x a b true true)
              id
              s'.ctx
          → Ensures
              (λ r s2. IsContext s2.ctx)
              ((if id == 0
                  then pure {A = ℕ × ℕ} (instrument_line_rp_error, id)
                  else (line_added jvm c x a b id >>= λ status. pure (status, id)))
                s')
      goes_on id s' (inl (e, sound)) =
          let is_zero : (id == 0) ≡ true = ground arith in rw is_zero sound
      goes_on id s' (inr (ne, free, fresh)) =
          let not_zero : (id == 0) ≡ false = ground arith in
          rw not_zero (
            Ensures-bind (λ r s2. IsContext s2.ctx) (λ r s2. IsContext s2.ctx)
              (line_added jvm c x a b id) _ s'
              (line_added-IsContext s.ctx.queued_instruments s.ctx.loaded_classes id ok.queued
                ok.tab_valid free s' fresh)
              (λ status s2 sound. sound))
