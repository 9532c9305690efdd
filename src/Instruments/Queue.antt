-- ===== src/Instruments/Queue.antt =====
-- instrument-handler.c: the invariant when an entry of the queue is removed or added.
use jauto_profiler_mcp.Prelude.{
  ℕ, ◌+◌, ◌<◌, ◌≡◌, refl, ap, ◌∙◌, sym, ◌≢◌, some, arith, subst, ℕ_discrete,
}
use jauto_profiler_mcp.HashTab.{Bytes, hash_tab_lookup}
use jauto_profiler_mcp.DynArr.{dynarr_remove}
use jauto_profiler_mcp.DynArr.Items.{items, remove_nth, dynarr_remove-items}
use jauto_profiler_mcp.DynArr.All.{skip, IsLonger, IsShorter, dynarr_remove-IsShorter}
use jauto_profiler_mcp.ClassInfo.{ClassInfo, ClassInfoList}
use jauto_profiler_mcp.Queued.{QueuedInstr, QueuedInstrList, queued_instr_list_remove_and_destroy}
use jauto_profiler_mcp.MasterInstruments.{MasterInstruments}
use jauto_profiler_mcp.Instruments.{InstrCtx, Session}
use jauto_profiler_mcp.Instruments.Deferred.{remove_queued}
use jauto_profiler_mcp.Instruments.Ensures.{Ensures}
use jauto_profiler_mcp.Instruments.Sound.{IsSound, IsQueued, IsApplied, Owed, Apart, Free}

pub skip-injective : (index i j : ℕ) → i ≢ j → skip index i ≢ skip index j
skip-injective index i j ne same = ne (ground arith)

pub skip-other : (index j : ℕ) → skip index j ≢ index
skip-other index j same = ground arith

pub skip-below : (index j n m : ℕ) → n + 1 ≡ m → j < n → skip index j < m
skip-below index j n m e lt = ground arith

-- An invariant without exceptions holds with one.
pub IsApplied-skip :
    (mi : MasterInstruments) (q : QueuedInstrList) (k : ℕ) (c : ClassInfo)
    → IsApplied mi q q.len c
    → IsApplied mi q k c
IsApplied-skip mi q k c h = record {
  methods_valid = h.methods_valid;
  lines_valid = h.lines_valid;
  methods =
      λ j lt. let (below, free) = h.methods j lt in (below, λ i il ne. free i il (omega arith));
  lines = λ j lt.
      let ((below, free), line) = h.lines j lt in
      ((below, λ i il ne. free i il (omega arith)), line);
}

pub IsSound-skip :
    (q : QueuedInstrList) (t : ClassInfoList) (k : ℕ) (ctx : InstrCtx)
    → IsSound q t q.len ctx
    → IsSound q t k ctx
IsSound-skip q t k ctx h = record {
  queue_is = h.queue_is;
  tab_is = h.tab_is;
  names = h.names;
  registry = h.registry;
  owed = λ j lt ne. h.owed j lt (omega arith);
  classes = λ name a at. IsApplied-skip ctx.master_instruments q k _ (h.classes name a at);
}

module _ (q q' : QueuedInstrList) (ok : IsQueued q) (idx : ℕ)
    (short : IsShorter q q' ok.valid idx) where
  pub IsQueued-removed : IsQueued q'
  IsQueued-removed =
      let (valid, len, is) = short in
      record {
        valid = valid;
        apart = λ i j il jl ne.
            subst (λ x. Apart x (q'.arr j)) (sym (is i il))
              (subst (λ x. Apart (q.arr (skip idx i)) x) (sym (is j jl))
                (ok.apart (skip idx i) (skip idx j) (skip-below idx i q'.len q.len len il)
                  (skip-below idx j q'.len q.len len jl) (skip-injective idx i j ne)));
      }

  Free-removed : (k' id : ℕ) → Free q idx id → Free q' k' id
  Free-removed k' id free j lt ne =
      let (valid, len, is) = short in
      subst (λ x. x.instrument_id ≢ id) (sym (is j lt))
        (free (skip idx j) (skip-below idx j q'.len q.len len lt) (skip-other idx j))

  pub IsApplied-removed :
      (mi : MasterInstruments) (k' : ℕ) (c : ClassInfo)
      → IsApplied mi q idx c
      → IsApplied mi q' k' c
  IsApplied-removed mi k' c h = record {
    methods_valid = h.methods_valid;
    lines_valid = h.lines_valid;
    methods = λ j lt. let (below, free) = h.methods j lt in (below, Free-removed k' _ free);
    lines =
        λ j lt. let ((below, free), line) = h.lines j lt in ((below, Free-removed k' _ free), line);
  }

  pub IsSound-removed :
      (t : ClassInfoList) (k' : ℕ) (ctx : InstrCtx)
      → IsSound q t idx ctx
      → IsSound q' t k' (record ctx { queued_instruments = q' })
  IsSound-removed t k' ctx h =
      let (valid, len, is) = short in
      record {
        queue_is = refl;
        tab_is = h.tab_is;
        names = h.names;
        registry = h.registry;
        owed = λ j lt ne.
            subst (Owed ctx.master_instruments) (sym (is j lt))
              (h.owed (skip idx j) (skip-below idx j q'.len q.len len lt) (skip-other idx j));
        classes = λ name a at. IsApplied-removed ctx.master_instruments k' _ (h.classes name a at);
      }

module _ (q : QueuedInstrList) (t : ClassInfoList) (ok : IsQueued q) (idx : ℕ)
    (lt : idx < q.len) where
  -- the queue without an entry, and the invariant again without exceptions
  abbrev pub IsTaken : InstrCtx → Type 0
  IsTaken ctx =
      (q' : QueuedInstrList) × IsQueued q'
      × IsShorter q q' ok.valid idx
      × (items q' ≡ remove_nth idx (items q))
      × IsSound q' t q'.len ctx

  pub remove_queued-IsTaken :
      (s : Session) → IsSound q t idx s.ctx → Ensures (λ a s'. IsTaken s'.ctx) (remove_queued idx s)
  unfolding remove_queued queued_instr_list_remove_and_destroy
  remove_queued-IsTaken s h =
      let (q', run, valid, is) = dynarr_remove-items q ok.valid idx lt in
      let short = dynarr_remove-IsShorter q q' ok.valid idx run in
      let at_ctx : dynarr_remove s.ctx.queued_instruments idx ≡ some q' =
        ap (λ x. dynarr_remove x idx) h.queue_is ∙ run in
      rw at_ctx (
        q',
        IsQueued-removed q q' ok idx short,
        short,
        is,
        IsSound-removed q q' ok idx short t q'.len s.ctx h,
      )

-- a class has nothing with the id
abbrev pub IsWithout : ℕ → ClassInfo → Type 0
IsWithout id c =
    ((j : ℕ) → j < c.instrumented.len → id ≢ (c.instrumented.arr j).instrument_id)
    × ((j : ℕ) → j < c.lines.len → id ≢ (c.lines.arr j).instrument_id)

module _ (q q' : QueuedInstrList) (ok : IsQueued q) (qi : QueuedInstr)
    (long : IsLonger q q' ok.valid qi) where
  pub IsQueued-added : ((j : ℕ) → j < q.len → Apart (q.arr j) qi × Apart qi (q.arr j)) → IsQueued q'
  IsQueued-added apart =
      let (valid, len, last, before) = long in
      record {
        valid = valid;
        apart = λ i j il jl ne. elim (ℕ_discrete i q.len) [
          | yes at ↦
              subst (λ x. Apart x (q'.arr j)) (sym (ap q'.arr at ∙ last))
                (subst (λ x. Apart qi x) (sym (before j (omega (arith, len))))
                  (apart j (omega (arith, len))).1)
          | no other ↦ elim (ℕ_discrete j q.len) [
            | yes at ↦
                subst (λ x. Apart (q'.arr i) x) (sym (ap q'.arr at ∙ last))
                  (subst (λ x. Apart x qi) (sym (before i (omega (arith, len))))
                    (apart i (omega (arith, len))).0)
            | no other' ↦
                subst (λ x. Apart x (q'.arr j)) (sym (before i (omega (arith, len))))
                  (subst (λ x. Apart (q.arr i) x) (sym (before j (omega (arith, len))))
                    (ok.apart i j (omega (arith, len)) (omega (arith, len)) ne))
          ]
        ];
      }

  Free-added : (id : ℕ) → qi.instrument_id ≢ id → Free q q.len id → Free q' q'.len id
  Free-added id ne free j lt there =
      let (valid, len, last, before) = long in
      elim (ℕ_discrete j q.len) [
        | yes at ↦ subst (λ x. x.instrument_id ≢ id) (sym (ap q'.arr at ∙ last)) ne
        | no other ↦
            subst (λ x. x.instrument_id ≢ id) (sym (before j (omega (arith, len))))
              (free j (omega (arith, len)) other)
      ]

  -- Adding an entry that is owed, where no class has its id.
  pub IsSound-added :
      (t : ClassInfoList) (ctx : InstrCtx)
      → IsSound q t q.len ctx
      → Owed ctx.master_instruments qi
      → ((name : Bytes) (a : ℕ)
          → hash_tab_lookup t.tab name ≡ some a
          → IsApplied ctx.master_instruments q q.len (ctx.loaded_classes.store a)
          → IsWithout qi.instrument_id (ctx.loaded_classes.store a))
      → IsSound q' t q'.len (record ctx { queued_instruments = q' })
  IsSound-added t ctx h owed without =
      let (valid, len, last, before) = long in
      record {
        queue_is = refl;
        tab_is = h.tab_is;
        names = h.names;
        registry = h.registry;
        owed = λ j lt ne. elim (ℕ_discrete j q.len) [
          | yes at ↦ subst (Owed ctx.master_instruments) (sym (ap q'.arr at ∙ last)) owed
          | no other ↦
              subst (Owed ctx.master_instruments) (sym (before j (omega (arith, len))))
                (h.owed j (omega (arith, len)) other)
        ];
        classes = λ name a at.
            let c = h.classes name a at in
            let (methods, lines) = without name a at c in
            record {
              methods_valid = c.methods_valid;
              lines_valid = c.lines_valid;
              methods = λ j lt.
                  let (below, free) = c.methods j lt in (below, Free-added _ (methods j lt) free);
              lines = λ j lt.
                  let ((below, free), line) = c.lines j lt in
                  ((below, Free-added _ (lines j lt) free), line);
            };
      }
