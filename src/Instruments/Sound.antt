-- ===== src/Instruments/Sound.antt =====
-- instrument-handler.c: the invariant of the context, and how it survives a change of the registry or of
-- a class.
use jauto_profiler_mcp.Prelude.{
  ℕ, ◌<◌, ◌≡◌, refl, ap, ◌∙◌, sym, ◌≢◌, ◌⊎◌, Bool, true, false, some, arith, ◌==◌, if◌then◌else◌,
  subst, ℕ_discrete,
}
use jauto_profiler_mcp.HashTab.{Bytes, hash_tab_lookup}
use jauto_profiler_mcp.HashTab.Valid
use jauto_profiler_mcp.DynArr.Items.{IsValid}
use jauto_profiler_mcp.ClassInfo.{ClassInfo, ClassInfoList, write}
use jauto_profiler_mcp.Queued.{
  QueuedInstr, QueuedInstrList, QiDetail, qi_method, qi_line_enter, qi_line_exit,
}
use jauto_profiler_mcp.MasterInstruments.{
  MiEntry, MasterInstruments, mi_method, mi_line, mi_var_bind, mi_find,
}
use jauto_profiler_mcp.MasterInstruments.Registry.{IsRegistry, Elsewhere}
use jauto_profiler_mcp.Instruments.{InstrCtx}

abbrev pub is_line_entry : MiEntry → Bool
is_line_entry (mi_method c m d) = false
is_line_entry (mi_line c x a b d e) = true
is_line_entry (mi_var_bind c v l d) = false

-- the entry has what waits in the queue still before it
abbrev pub waits : QiDetail → MiEntry → Bool
waits (qi_method m) (mi_method c n d) = d
waits (qi_line_enter l) (mi_line c x a b d e) = d
waits (qi_line_exit l) (mi_line c x a b d e) = e
waits q e = false

-- the two sides of a line
abbrev pub opposite : QiDetail → QiDetail → Bool
opposite (qi_line_enter l) (qi_line_exit m) = true
opposite (qi_line_exit l) (qi_line_enter m) = true
opposite q r = false

-- different instruments, or the two sides of one
abbrev pub Apart : QueuedInstr → QueuedInstr → Type 0
Apart a b =
    (a.instrument_id ≢ b.instrument_id)
    ⊎ (opposite a.detail b.detail ≡ true) × (a.profiler_id ≡ b.profiler_id)

-- an entry of the queue has a profiler and an entry in the registry that waits for it
abbrev pub Owed : MasterInstruments → QueuedInstr → Type 0
Owed mi qi =
    (e : MiEntry) × (p : ℕ) × (mi_find mi qi.instrument_id ≡ some e)
    × (waits qi.detail e ≡ true)
    × (qi.profiler_id ≡ some p)
    × (qi.instrument_id < mi.next_id)

-- no entry of the queue but `k` has the id
abbrev pub Free : QueuedInstrList → ℕ → ℕ → Type 0
Free q k id = (j : ℕ) → j < q.len → j ≢ k → (q.arr j).instrument_id ≢ id

-- an id in the registry is that of a line
abbrev pub IsLineId : MasterInstruments → ℕ → Type 0
IsLineId mi id = (e : MiEntry) → mi_find mi id ≡ some e → is_line_entry e ≡ true

abbrev pub Placed : MasterInstruments → QueuedInstrList → ℕ → ℕ → Type 0
Placed mi q k id = (id < mi.next_id) × Free q k id

-- what a class holds was given an id and does not wait, but for the entry `k` of the queue
pub record IsApplied (mi : MasterInstruments) (q : QueuedInstrList) (k : ℕ) (c : ClassInfo)
    : Type 0 where
  pub methods_valid : IsValid c.instrumented
  pub lines_valid : IsValid c.lines
  pub methods :
      (j : ℕ) → j < c.instrumented.len → Placed mi q k (c.instrumented.arr j).instrument_id
  pub lines :
      (j : ℕ)
      → j < c.lines.len
      → Placed mi q k (c.lines.arr j).instrument_id × IsLineId mi (c.lines.arr j).instrument_id

-- the queue: an array of instruments that are pairwise apart
pub record IsQueued (q : QueuedInstrList) : Type 0 where
  pub valid : IsValid q
  pub apart : (i j : ℕ) → i < q.len → j < q.len → i ≢ j → Apart (q.arr i) (q.arr j)

-- The registry and the classes, with a queue and a table of classes that stay as they are. The entry
-- `k` of the queue is being applied; `k` is past the end if none is.
pub record IsSound (q : QueuedInstrList) (t : ClassInfoList) (k : ℕ) (ctx : InstrCtx) : Type 0 where
  pub queue_is : ctx.queued_instruments ≡ q
  pub tab_is : ctx.loaded_classes.tab ≡ t.tab
  pub names : (a : ℕ) → (ctx.loaded_classes.store a).name ≡ (t.store a).name
  pub registry : IsRegistry ctx.master_instruments
  pub owed : (j : ℕ) → j < q.len → j ≢ k → Owed ctx.master_instruments (q.arr j)
  pub classes :
      (name : Bytes) (a : ℕ)
      → hash_tab_lookup t.tab name ≡ some a
      → IsApplied ctx.master_instruments q k (ctx.loaded_classes.store a)

-- A valid table, which finds a class under its own name.
abbrev pub IsList : ClassInfoList → Type 0
IsList t =
    Valid.IsValid t.tab
    × ((name : Bytes) (a : ℕ) → hash_tab_lookup t.tab name ≡ some a → (t.store a).name ≡ name)

-- The invariant of the context between two operations.
pub record IsContext (ctx : InstrCtx) : Type 0 where
  pub queued : IsQueued ctx.queued_instruments
  pub tab_valid : IsList ctx.loaded_classes
  pub sound : IsSound ctx.queued_instruments ctx.loaded_classes ctx.queued_instruments.len ctx

-- a class that the list finds
abbrev pub Listed : ClassInfoList → ℕ → Type 0
Listed t a = (name : Bytes) × (hash_tab_lookup t.tab name ≡ some a)

module _ (q : QueuedInstrList) (t : ClassInfoList) (k : ℕ) where
  -- A registry that differs at one id only, and there not in the kind of instrument.
  pub record Changed (mi mi' : MasterInstruments) (id : ℕ) : Type 0 where
    pub registry : IsRegistry mi'
    pub next_is : mi'.next_id ≡ mi.next_id
    pub elsewhere : Elsewhere mi id mi'
    pub kind : IsLineId mi id → IsLineId mi' id

  module _ (mi mi' : MasterInstruments) (id : ℕ) (ch : Changed mi mi' id)
      (reg : IsRegistry mi) where
    Placed-Changed : (i : ℕ) → Placed mi q k i → Placed mi' q k i
    Placed-Changed i (lt, free) = (omega (arith, ch.next_is), free)

    IsLineId-Changed : (i : ℕ) → i < mi.next_id → IsLineId mi i → IsLineId mi' i
    IsLineId-Changed i lt h e found = elim (ℕ_discrete i id) [
      | yes same ↦
          subst (λ x. IsLineId mi' x) (sym same) (ch.kind (subst (IsLineId mi) same h)) e found
      | no other ↦ h e (sym (ch.elsewhere i (omega (arith, reg.in_range)) other) ∙ found)
    ]

    pub IsApplied-Changed : (c : ClassInfo) → IsApplied mi q k c → IsApplied mi' q k c
    IsApplied-Changed c h = record {
      methods_valid = h.methods_valid;
      lines_valid = h.lines_valid;
      methods = λ j lt. Placed-Changed _ (h.methods j lt);
      lines = λ j lt. let (p, l) = h.lines j lt in (Placed-Changed _ p, IsLineId-Changed _ p.0 l);
    }

    -- What waits under other ids is not touched.
    pub Owed-other : (qi : QueuedInstr) → qi.instrument_id ≢ id → Owed mi qi → Owed mi' qi
    Owed-other qi ne (e, p, found, w, has, lt) = (
      e,
      p,
      ch.elsewhere qi.instrument_id (omega (arith, reg.in_range)) ne ∙ found,
      w,
      has,
      omega (arith, ch.next_is),
    )

  pub IsSound-Changed :
      (ctx : InstrCtx) (mi' : MasterInstruments) (id : ℕ)
      → IsSound q t k ctx
      → Changed ctx.master_instruments mi' id
      → ((j : ℕ) → j < q.len → j ≢ k → Owed mi' (q.arr j))
      → IsSound q t k (record ctx { master_instruments = mi' })
  IsSound-Changed ctx mi' id h ch owed = record {
    queue_is = h.queue_is;
    tab_is = h.tab_is;
    names = h.names;
    registry = ch.registry;
    owed = owed;
    classes = λ name a at.
        IsApplied-Changed ctx.master_instruments mi' id ch h.registry _ (h.classes name a at);
  }

  -- Writing a class that keeps the rule.
  pub IsSound-class :
      (ctx : InstrCtx) (ci : ℕ) (c : ClassInfo)
      → IsSound q t k ctx
      → IsApplied ctx.master_instruments q k c
      → c.name ≡ (ctx.loaded_classes.store ci).name
      → IsSound q t k (record ctx {
        loaded_classes = record ctx.loaded_classes { store = write ctx.loaded_classes.store ci c };
      })
  IsSound-class ctx ci c h ok same = record {
    queue_is = h.queue_is;
    tab_is = h.tab_is;
    names = λ a. named a (ℕ_discrete a ci);
    registry = h.registry;
    owed = h.owed;
    classes = λ name a at. written (a == ci) (ctx.loaded_classes.store a) (h.classes name a at);
  }
    where
      named :
          (a : ℕ) → Dec (a ≡ ci) → (write ctx.loaded_classes.store ci c a).name ≡ (t.store a).name
      named a (yes e) = ground (arith, h.names ci)
      named a (no n) = ground (arith, h.names a)

      written :
          (b : Bool) (old : ClassInfo)
          → IsApplied ctx.master_instruments q k old
          → IsApplied ctx.master_instruments q k (if b then c else old)
      written true old p = ok
      written false old p = p

-- The invariant of an operation, at its end.
pub IsContext-again :
    (t : ClassInfoList) (ctx : InstrCtx)
    → IsQueued ctx.queued_instruments
    → IsList t
    → IsSound ctx.queued_instruments t ctx.queued_instruments.len ctx
    → IsContext ctx
IsContext-again t ctx queued valid h = record {
  queued = queued;
  tab_valid = (
    subst (λ x. Valid.IsValid x) (sym h.tab_is) valid.0,
    λ name a at. h.names a ∙ valid.1 name a (ap (λ x. hash_tab_lookup x name) (sym h.tab_is) ∙ at),
  );
  sound = record {
    queue_is = refl;
    tab_is = refl;
    names = λ a. refl;
    registry = h.registry;
    owed = h.owed;
    classes = λ name a at. h.classes name a (ap (λ x. hash_tab_lookup x name) (sym h.tab_is) ∙ at);
  };
}

-- The same, where the queue is the one of the start.
pub IsContext-from :
    (q : QueuedInstrList) (t : ClassInfoList) (ctx : InstrCtx)
    → IsQueued q
    → IsList t
    → IsSound q t q.len ctx
    → IsContext ctx
IsContext-from q t ctx queued valid h =
    IsContext-again t ctx (subst IsQueued (sym h.queue_is) queued) valid
      (subst (λ x. IsSound x t x.len ctx) (sym h.queue_is) h)

-- A registry with one entry more.
pub record Grown (mi mi' : MasterInstruments) (id : ℕ) : Type 0 where
  pub registry : IsRegistry mi'
  pub id_is : id ≡ mi.next_id
  pub below : id < mi'.next_id
  pub elsewhere : Elsewhere mi id mi'

pub IsSound-Grown :
    (q : QueuedInstrList) (t : ClassInfoList) (k : ℕ) (ctx : InstrCtx) (mi' : MasterInstruments)
    (id : ℕ)
    → IsSound q t k ctx
    → Grown ctx.master_instruments mi' id
    → IsSound q t k (record ctx { master_instruments = mi' })
IsSound-Grown q t k ctx mi' id h g =
    let mi = ctx.master_instruments in
    let same = λ (i : ℕ) (lt : i < mi.next_id).
      g.elsewhere i (omega (arith, lt, h.registry.in_range)) (λ e. omega (arith, e, g.id_is, lt)) in
    record {
      queue_is = h.queue_is;
      tab_is = h.tab_is;
      names = h.names;
      registry = g.registry;
      owed = λ j lt ne.
          let (e, p, found, w, has, below) = h.owed j lt ne in
          (e, p, same _ below ∙ found, w, has, omega (arith, below, g.below, g.id_is));
      classes = λ name a at.
          let c = h.classes name a at in
          record {
            methods_valid = c.methods_valid;
            lines_valid = c.lines_valid;
            methods = λ j lt.
                let (below, free) = c.methods j lt in
                (omega (arith, below, g.below, g.id_is), free);
            lines = λ j lt.
                let ((below, free), line) = c.lines j lt in
                (
                  (omega (arith, below, g.below, g.id_is), free),
                  λ e found. line e (sym (same _ below) ∙ found),
                );
          };
    }
