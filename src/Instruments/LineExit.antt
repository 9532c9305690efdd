-- ===== src/Instruments/LineExit.antt =====
-- instrument-handler.c: the exit side of a line that waits, and how the wait is called off.
use jauto_profiler_mcp.Prelude.{
  Bool-cases, some_injective, ℕ, ◌+◌, ◌^◌, ◌<◌, ◌≡◌, refl, ap, ◌∙◌, sym, ◌⊎◌, inl, inr, Bool, true,
  false, not, Option, none, some, subst, if◌then◌else◌, ℕ_discrete,
}
use jauto_profiler_mcp.HashTab.{Bytes, hash_tab_lookup}
use jauto_profiler_mcp.DynArr.{dynarr_add}
use jauto_profiler_mcp.DynArr.All.{dynarr_add-IsLonger}
use jauto_profiler_mcp.ClassInfo.{ClassInfoList}
use jauto_profiler_mcp.Queued.{
  QueuedInstr, QueuedInstrList, qi_line_enter, qi_line_exit, queued_instr_line_add,
  queued_instr_line_init,
}
use jauto_profiler_mcp.MasterInstruments.{
  MiEntry, MasterInstruments, mi_line, mi_find, mi_mark_applied, marked, Mark, line_exit_mark,
}
use jauto_profiler_mcp.MasterInstruments.Registry.{IsRegistry}
use jauto_profiler_mcp.MasterInstruments.Marks.{mi_mark_applied_lem}
use jauto_profiler_mcp.Instruments.{
  Jvm, InstrCtx, Session, Action, pure, ◌>>=◌, ◌>>◌, remove_instrument, mark_applied, malloc,
  set_queue,
}
use jauto_profiler_mcp.Instruments.Deferred.{
  queue_line, unqueue_line, instrument_line_rp_deferred, remove_queued_instr_by_id,
}
use jauto_profiler_mcp.Instruments.Ensures.{Ensures, Ensures-bind, Ensures-weaken}
use jauto_profiler_mcp.Instruments.Sound.{IsList, IsContext, IsContext-from, Apart, is_line_entry}
use jauto_profiler_mcp.Instruments.Steps.{Inv, remove_instrument_lem, mark_applied_lem, passes}
use jauto_profiler_mcp.Instruments.Queue.{IsWithout, IsQueued-added, IsSound-added}
use jauto_profiler_mcp.Instruments.Dropping.{IsWell, Dropped, remove_queued_instr_by_id-Dropped}

-- Marking an entry of the right type clears its flag.
pub mark_applied_found :
    (mark : Mark) (id : ℕ) (e e' : MiEntry) (mi : MasterInstruments)
    → IsRegistry mi
    → id < 2 ^ 64
    → mi_find mi id ≡ some e
    → marked mark e ≡ some e'
    → mi_find (mi_mark_applied mark mi id).0 id ≡ some e'
mark_applied_found mark id e e' mi reg lt found to = elim (mi_mark_applied_lem mark mi reg id lt) [
  | inl (run, inl gone) ↦ absurd (cc)
  | inl (run, inr (f, was, not_to)) ↦
      let same : f ≡ e = some_injective (sym was ∙ found) in
      let bad : marked mark e ≡ none = ap (marked mark) (sym same) ∙ not_to in absurd (cc)
  | inr (mi', f, f', run, was, to', is, reg', others) ↦
      let same : f ≡ e = some_injective (sym was ∙ found) in
      let same' : f' ≡ e' = some_injective (sym to' ∙ ap (marked mark) same ∙ to) in
      ap (λ r. mi_find r.0 id) run ∙ is ∙ ap some same'
]

module _ (jvm : Jvm) (t : ClassInfoList) (valid : IsList t) (id p : ℕ) (c x : Bytes) (a b : ℕ) where
  -- The entry of the instrument still waits for its exit, and in the queue there is its entry side at
  -- most.
  pub record IsMid (ctx : InstrCtx) : Type 0 where
    pub well : IsWell t ctx
    pub below : id < ctx.master_instruments.next_id
    pub deferred : Bool
    pub found : mi_find ctx.master_instruments id ≡ some (mi_line c x a b deferred true)
    pub entered :
        (j : ℕ)
        → j < ctx.queued_instruments.len
        → (ctx.queued_instruments.arr j).instrument_id ≡ id
        → (l : ℕ) × ((ctx.queued_instruments.arr j).detail ≡ qi_line_enter l)
          × ((ctx.queued_instruments.arr j).profiler_id ≡ some p)
    pub without :
        (name : Bytes) (k : ℕ)
        → hash_tab_lookup t.tab name ≡ some k
        → IsWithout id (ctx.loaded_classes.store k)

  -- The instrument is taken out of the queue and of the registry.
  pub unqueue_line-IsContext :
      (s : Session)
      → IsWell t s.ctx
      → id < s.ctx.master_instruments.next_id
      → Ensures (λ r s'. IsContext s'.ctx) (unqueue_line jvm id s)
  unfolding unqueue_line
  unqueue_line-IsContext s well below =
      Ensures-bind (λ r s'. Dropped t id s.ctx s'.ctx) (λ r s'. IsContext s'.ctx)
        (remove_queued_instr_by_id id) _ s (remove_queued_instr_by_id-Dropped t id s well)
        (λ r s1 d.
          let ((queued, h), free, reg) = d in
          let q1 = s1.ctx.queued_instruments in
          Ensures-bind
            (λ u s'.
              Inv q1 t q1.len id false s'.ctx × (mi_find s'.ctx.master_instruments id ≡ none))
            (λ r s'. IsContext s'.ctx) (remove_instrument id) _ s1
            (remove_instrument_lem q1 t q1.len id false free s1
              (h, subst (λ y. id < y.next_id) (sym reg) below, λ bad. cc))
            (λ u s2 i. IsContext-from q1 t s2.ctx queued valid i.0.0))

  -- a sound context in which the id was given out
  abbrev pub IsBelow : InstrCtx → Type 0
  IsBelow ctx = IsWell t ctx × (id < ctx.master_instruments.next_id)

  -- the exit side: it failed, or all is done
  abbrev IsExited : Bool → InstrCtx → Type 0
  IsExited done ctx = (done ≡ false) × IsBelow ctx ⊎ (done ≡ true) × IsContext ctx

  queue_exit-IsExited :
      (s : Session)
      → IsMid s.ctx
      → Ensures (λ done s'. IsExited done s'.ctx) (queue_line jvm x b p id false s)
  unfolding queue_line queued_instr_line_add queued_instr_line_init malloc
  queue_exit-IsExited s m =
      added
        (dynarr_add (jvm.malloc s.turn) s.ctx.queued_instruments
          (queued_instr_line_init x b p id false))
        refl
    where
      beside :
          (qi : QueuedInstr)
          → qi.instrument_id ≡ id
          → qi.detail ≡ qi_line_exit b
          → qi.profiler_id ≡ some p
          → (j : ℕ) → j < s.ctx.queued_instruments.len
          → Apart (s.ctx.queued_instruments.arr j) qi × Apart qi (s.ctx.queued_instruments.arr j)
      beside qi is exit has j lt =
          elim (ℕ_discrete (s.ctx.queued_instruments.arr j).instrument_id id) [
            | no other ↦ (inl (λ same. other (same ∙ is)), inl (λ same. other (sym same ∙ is)))
            | yes same ↦
                let (l, enter, prof) = m.entered j lt same in
                (
                  inr (rw (enter, exit) refl, prof ∙ sym has),
                  inr (rw (enter, exit) refl, has ∙ sym prof),
                )
          ]

      added :
          (r : Option QueuedInstrList)
          → dynarr_add
              (jvm.malloc s.turn)
              s.ctx.queued_instruments
              (queued_instr_line_init x b p id false)
            ≡ r
          → Ensures
              (λ done s'. IsExited done s'.ctx)
              ((elim r as (λ _. Action Bool) [
                | none ↦ pure false
                | some q' ↦ set_queue q' >> malloc jvm
              ])
                (record s { turn = s.turn + 1 }))
      added none e = inl (refl, (m.well, m.below))
      added (some q') e =
          let q = s.ctx.queued_instruments in
          let qi = queued_instr_line_init x b p id false in
          let (queued, h) = m.well in
          let long = dynarr_add-IsLonger q q' queued.valid (jvm.malloc s.turn) qi e in
          let queued' = IsQueued-added q q' queued qi long (beside qi refl refl refl) in
          let sound' =
            IsSound-added q q' queued qi long t s.ctx h
              (mi_line c x a b m.deferred true, p, m.found, refl, refl, m.below)
              (λ name k at applied. m.without name k at) in
          elim (Bool-cases (jvm.malloc (s.turn + 1))) [
            | inl good ↦ inr (
              good,
              IsContext-from q' t (record s.ctx { queued_instruments = q' }) queued' valid sound',
            )
            | inr bad ↦ inl (bad, ((queued', sound'), m.below))
          ]

  mark_exit-IsContext :
      (s : Session)
      → IsMid s.ctx
      → Ensures (λ u s'. IsContext s'.ctx) (mark_applied line_exit_mark id s)
  mark_exit-IsContext s m =
      let q = s.ctx.queued_instruments in
      let (queued, h) = m.well in
      Ensures-weaken (λ u s'. Inv q t q.len id true s'.ctx) (λ u s'. IsContext s'.ctx)
        (mark_applied line_exit_mark id s)
        (mark_applied_lem q t q.len id true line_exit_mark
          (λ j lt ne same.
            let (l, enter, prof) = m.entered j lt same in
            subst (λ d. passes line_exit_mark d ≡ true) (sym enter) refl)
          s (h, m.below, λ u e there. kind e there))
        (λ u s' i. IsContext-from q t s'.ctx queued valid i.0)
    where
      kind : (e : MiEntry) → mi_find s.ctx.master_instruments id ≡ some e → is_line_entry e ≡ true
      kind e there = subst (λ y. is_line_entry y ≡ true) (some_injective (sym m.found ∙ there)) refl

  -- The exit side, and the end of the request.
  unfoldable pub exit_side : Bool → Action ℕ
  exit_side later =
      (if later
        then queue_line jvm x b p id false
        else (mark_applied line_exit_mark id >> pure true))
      >>= λ exit_done.
          if not exit_done then unqueue_line jvm id else pure instrument_line_rp_deferred

  pub exit_side-IsContext :
      (later : Bool) (s : Session)
      → IsMid s.ctx
      → Ensures (λ r s'. IsContext s'.ctx) (exit_side later s)
  unfolding exit_side mark_applied
  exit_side-IsContext true s m =
      Ensures-bind (λ done s'. IsExited done s'.ctx) (λ r s'. IsContext s'.ctx)
        (queue_line jvm x b p id false) _ s (queue_exit-IsExited s m) (λ done s' r. ended done s' r)
    where
      ended :
          (done : Bool) (s' : Session)
          → IsExited done s'.ctx
          → Ensures
              (λ r s2. IsContext s2.ctx)
              ((if not done then unqueue_line jvm id else pure instrument_line_rp_deferred) s')
      ended done s' (inl (e, (well, below))) = rw e (unqueue_line-IsContext s' well below)
      ended done s' (inr (e, ok)) = rw e ok
  exit_side-IsContext false s m =
      Ensures-bind (λ u s'. IsContext s'.ctx) (λ r s'. IsContext s'.ctx)
        (mark_applied line_exit_mark id)
        (λ u. pure true >>= λ exit_done.
          if not exit_done then unqueue_line jvm id else pure instrument_line_rp_deferred)
        s (mark_exit-IsContext s m) (λ u s' ok. ok)
