-- ===== src/Instruments/Adding.antt =====
-- instrument-handler.c: a new instrument in the registry, and the request to instrument a method.
use jauto_profiler_mcp.Prelude.{
  ◌∙◌, ◌-◌, ◌&&◌, ℕ, ◌+◌, ◌^◌, ◌<◌, ◌≡◌, refl, ap, sym, ◌≢◌, ◌⊎◌, inl, inr, Bool, true, false, not,
  Option, none, some, arith, subst, ◌==◌, if◌then◌else◌,
}
use jauto_profiler_mcp.HashTab.{Bytes, hash_tab_lookup}
use jauto_profiler_mcp.DynArr.{dynarr_add}
use jauto_profiler_mcp.DynArr.All.{dynarr_add-IsLonger}
use jauto_profiler_mcp.ClassInfo.{ClassInfoList, ci_list_find_by_name}
use jauto_profiler_mcp.Queued.{
  QueuedInstr, QueuedInstrList, queued_instr_method_add, queued_instr_method_init,
}
use jauto_profiler_mcp.MasterInstruments
use jauto_profiler_mcp.MasterInstruments.{
  MiEntry, MasterInstruments, mi_method, mi_find, add_entry, mi_add_method, mi_find_method_by_name,
}
use jauto_profiler_mcp.MasterInstruments.Registry.{Registered, add_entry-Registered, found_below}
use jauto_profiler_mcp.Instruments.{
  Jvm, InstrCtx, Session, Action, pure, ◌>>=◌, ◌>>◌, remove_instrument, find_class, malloc,
  jni_create_profiler, jni_remove_profiler, set_queue,
}
use jauto_profiler_mcp.Instruments.Apply.{
  instrument_rp_ok, instrument_rp_error, instrument_rp_double_instrument, instrument_rp_deferred,
}
use jauto_profiler_mcp.Instruments.Deferred.{instrument_later}
use jauto_profiler_mcp.Instruments.Handle.{
  add_instrument, add_master_method, method_later, method_added, ih_instrument_method,
}
use jauto_profiler_mcp.Instruments.Ensures.{
  Takes-if, Ensures, Ensures-bind, Ensures-weaken, Keeps, Keeps-bind, Keeps-then, Keeps-pure,
  Keeps-if, Keeps-malloc, Keeps-jni_create_profiler, Keeps-jni_remove_profiler, Takes, Takes-bind,
  Takes-first, Takes-option,
}
use jauto_profiler_mcp.DynArr.All.{IsShorter}
use jauto_profiler_mcp.Instruments.Dropping.{IsWell, Without, remove_queued-Without}
use jauto_profiler_mcp.Instruments.Deferred.{drop_last, remove_queued}
use jauto_profiler_mcp.Instruments.Sound.{
  IsList, IsQueued, IsContext, IsContext-from, IsContext-again, Free, Listed, is_line_entry, Grown,
  IsSound-Grown,
}
use jauto_profiler_mcp.Instruments.Steps.{Inv, Keeps-remove_instrument, remove_instrument_lem}
use jauto_profiler_mcp.Instruments.Queue.{IsWithout, IsQueued-added, IsSound-added}
use jauto_profiler_mcp.Instruments.Applying.{Ensures-instrument_now}

-- An entry that was just made: it is found, no class has its id, and it waits nowhere.
abbrev pub IsFresh : QueuedInstrList → ClassInfoList → ℕ → MiEntry → InstrCtx → Type 0
IsFresh q t id e ctx =
    Inv q t q.len id (is_line_entry e) ctx
    × (mi_find ctx.master_instruments id ≡ some e)
    × ((name : Bytes) (a : ℕ)
        → hash_tab_lookup t.tab name ≡ some a
        → IsWithout id (ctx.loaded_classes.store a))

-- the result of making an entry
abbrev pub IsMade : QueuedInstrList → ClassInfoList → MiEntry → ℕ → InstrCtx → Type 0
IsMade q t e id ctx = (id ≡ 0) × IsContext ctx ⊎ (id ≢ 0) × Free q q.len id × IsFresh q t id e ctx

module _ (jvm : Jvm) (s : Session) (e : MiEntry) (ok : IsContext s.ctx)
    (last : s.ctx.master_instruments.next_id + 1 < 2 ^ 64) where
  made :
      (mem : MasterInstruments.Memory) (mi' : MasterInstruments) (id : ℕ)
      → Registered mem s.ctx.master_instruments e ok.sound.registry last mi' id
      → IsMade s.ctx.queued_instruments s.ctx.loaded_classes e id
          (record s.ctx { master_instruments = mi' })
  made mem mi' id (inl (zero_id, same, why)) =
      inl (zero_id, subst (λ x. IsContext (record s.ctx { master_instruments = x })) (sym same) ok)
  made mem mi' id (inr (is, reg, was, found, others)) =
      let mi = s.ctx.master_instruments in
      let h = ok.sound in
      let range : id < 2 ^ 64 = omega (arith, is, h.registry.in_range) in
      let g : Grown mi mi' id = record {
        registry = reg;
        id_is = is;
        below = found_below mi' id e reg range found;
        elsewhere = others;
      } in
      inr (
        λ zero_id. omega (arith, zero_id, is, h.registry.pos),
        λ j lt ne same.
            let (e0, p, there, w, has, below) = h.owed j lt ne in omega (arith, below, same, is),
        (
          (
            IsSound-Grown _ _ _ s.ctx mi' id h g,
            g.below,
            λ line f there. subst (λ x. is_line_entry x ≡ true) (one f there) line,
          ),
          found,
          λ name a at.
              let c = h.classes name a at in
              (
                λ j lt same. let (below, free) = c.methods j lt in omega (arith, below, same, is),
                λ j lt same.
                    let ((below, free), line) = c.lines j lt in omega (arith, below, same, is),
              ),
        ),
      )
    where
      one : (f : MiEntry) → mi_find mi' id ≡ some f → e ≡ f
      one f there = cc

  pub add_instrument-IsMade :
      Ensures
        (λ id s'. IsMade s.ctx.queued_instruments s.ctx.loaded_classes e id s'.ctx)
        (add_instrument jvm (λ mem mi. add_entry mem mi e) s)
  unfolding add_instrument malloc
  add_instrument-IsMade =
      let mem : MasterInstruments.Memory = record {
        entry_ok = jvm.malloc s.turn;
        key_ok = jvm.malloc (s.turn + 1);
        tab_ok = jvm.malloc (s.turn + 1 + 1);
      } in
      let (mi', id, run, out) =
        add_entry-Registered mem s.ctx.master_instruments e ok.sound.registry last in
      rw run (made mem mi' id out)

module _ (jvm : Jvm) (q : QueuedInstrList) (t : ClassInfoList) (queued : IsQueued q)
    (valid : IsList t) (id : ℕ) (free : Free q q.len id) (e : MiEntry) where
  abbrev pub Fresh : InstrCtx → Type 0
  Fresh = IsFresh q t id e

  abbrev Known : InstrCtx → Type 0
  Known = Inv q t q.len id (is_line_entry e)

  pub Known-IsContext : (ctx : InstrCtx) → Known ctx → IsContext ctx
  Known-IsContext ctx i = IsContext-from q t ctx queued valid i.0

  -- What keeps the invariant takes a new entry to a sound context.
  pub Takes-Known : {A : Type 0} (m : Action A) → Keeps Known m → Takes Fresh IsContext m
  Takes-Known {A} m k s i =
      Ensures-weaken {A = A} (λ a s'. Known s'.ctx) (λ a s'. IsContext s'.ctx) (m s) (k s i.0)
        (λ a s' i'. Known-IsContext s'.ctx i')

  pub Takes-remove : {A : Type 0} (a : A) → Takes Fresh IsContext (remove_instrument id >> pure a)
  Takes-remove a = Takes-Known (remove_instrument id >> pure a) (
      Keeps-then Known (remove_instrument id) (pure a)
        (Keeps-remove_instrument q t q.len id (is_line_entry e) free) (Keeps-pure Known a))

  pub Takes-find_class :
      {B : Type 0} (name : Bytes) (f : Option ℕ → Action B)
      → Takes Fresh IsContext (f none)
      → ((a : ℕ) → Listed t a → Takes Fresh IsContext (f (some a)))
      → Takes Fresh IsContext (find_class name >>= f)
  unfolding find_class ci_list_find_by_name
  Takes-find_class name f missing there s i =
      found (hash_tab_lookup s.ctx.loaded_classes.tab name)
        (ap (λ x. hash_tab_lookup x name) (sym i.0.0.tab_is))
    where
      found :
          (r : Option ℕ)
          → hash_tab_lookup t.tab name ≡ r
          → Ensures (λ a s'. IsContext s'.ctx) (f r s)
      found none e = missing s i
      found (some a) e = there a (name, e) s i

module _ (jvm : Jvm) (q : QueuedInstrList) (t : ClassInfoList) (queued : IsQueued q)
    (valid : IsList t) (id : ℕ) (free : Free q q.len id) (c m : Bytes) where
  abbrev entry : MiEntry
  entry = mi_method c m true

  abbrev New : InstrCtx → Type 0
  New = IsFresh q t id entry

  -- the queue has one entry more than `q`, which alone may have the id
  abbrev IsPushed : InstrCtx → Type 0
  IsPushed ctx =
      IsWell t ctx
      × (id < ctx.master_instruments.next_id)
      × (ctx.queued_instruments.len ≡ q.len + 1)
      × ((j : ℕ) → j < q.len → (ctx.queued_instruments.arr j).instrument_id ≢ id)

  -- the end of `instrument_later` after the new entry
  abbrev copied : Action ℕ
  copied = malloc jvm >>= λ class_ok. malloc jvm >>= λ sig_ok.
      if class_ok && sig_ok then pure instrument_rp_deferred else drop_last id

  drop_last-IsContext : Takes IsPushed IsContext (drop_last id)
  unfolding drop_last
  drop_last-IsContext s ((queued', h), below, long, others) =
      let q1 = s.ctx.queued_instruments in
      Ensures-bind (λ u s'. Without t s.ctx (queued', h) (q1.len - 1) s'.ctx)
        (λ r s'. IsContext s'.ctx) (remove_queued (q1.len - 1)) _ s
        (remove_queued-Without t s (queued', h) (q1.len - 1) (omega (arith, long)))
        (λ u s1 w.
          let ((queued1, h1), short, reg) = w in
          let q2 = s1.ctx.queued_instruments in
          Ensures-bind
            (λ u s'.
              Inv q2 t q2.len id false s'.ctx × (mi_find s'.ctx.master_instruments id ≡ none))
            (λ r s'. IsContext s'.ctx) (remove_instrument id) _ s1
            (remove_instrument_lem q2 t q2.len id false
              (λ j lt ne same.
                others j (omega (arith, lt, short.1, long))
                  (ap (λ (y : QueuedInstr). y.instrument_id) (sym (before j q2 short lt)) ∙ same))
              s1 (h1, subst (λ y. id < y.next_id) (sym reg) below, λ bad. cc))
            (λ u s2 i. IsContext-from q2 t s2.ctx queued1 valid i.0.0))
    where
      before :
          (j : ℕ) (q2 : QueuedInstrList)
          → IsShorter s.ctx.queued_instruments q2 queued'.valid (s.ctx.queued_instruments.len - 1)
          → j < q2.len
          → q2.arr j ≡ s.ctx.queued_instruments.arr j
      before j q2 short lt =
          short.2 j lt ∙ ap s.ctx.queued_instruments.arr (ground (arith, short.1, lt))

  copied-IsContext : Takes IsPushed IsContext copied
  copied-IsContext =
      Takes-bind IsPushed IsContext (malloc jvm) _ (Keeps-malloc IsPushed jvm) (λ class_ok.
        Takes-bind IsPushed IsContext (malloc jvm) _ (Keeps-malloc IsPushed jvm) (λ sig_ok.
          Takes-if IsPushed IsContext (class_ok && sig_ok) _ _
            (λ s i. IsContext-again t s.ctx i.0.0 valid i.0.1) drop_last-IsContext))

  Takes-instrument_later : (p : ℕ) → Takes New IsContext (instrument_later jvm c m id p)
  unfolding instrument_later queued_instr_method_add queued_instr_method_init
  Takes-instrument_later p =
      Takes-bind New IsContext (malloc jvm) _ (Keeps-malloc New jvm) (λ grow_ok s i.
        added grow_ok s i
          (dynarr_add grow_ok s.ctx.queued_instruments (queued_instr_method_init c m p id))
          (ap (λ x. dynarr_add grow_ok x (queued_instr_method_init c m p id)) (sym i.0.0.queue_is)))
    where
      added :
          (grow_ok : Bool) (s : Session)
          → New s.ctx
          → (r : Option QueuedInstrList)
          → dynarr_add grow_ok q (queued_instr_method_init c m p id) ≡ r
          → Ensures
              (λ a s'. IsContext s'.ctx)
              ((elim r as (λ _. Action ℕ) [
                | none ↦ remove_instrument id >> pure instrument_rp_error
                | some q' ↦ set_queue q' >> copied
              ])
                s)
      added grow_ok s i none e =
          Takes-remove jvm q t queued valid id free entry instrument_rp_error s i
      added grow_ok s i (some q') e =
          let qi = queued_instr_method_init c m p id in
          let ((h, below, line), found, without) = i in
          let long = dynarr_add-IsLonger q q' queued.valid grow_ok qi e in
          let ctx' : InstrCtx = record s.ctx { queued_instruments = q' } in
          let well : IsWell t ctx' = (
            IsQueued-added q q' queued qi long (λ j lt.
                (inl (free j lt (omega arith)), inl (λ same. free j lt (omega arith) (sym same)))),
            IsSound-added q q' queued qi long t s.ctx h (entry, p, found, refl, refl, below)
                (λ name a at applied. without name a at),
          ) in
          copied-IsContext (record s { ctx = record s.ctx { queued_instruments = q' } })
            (
              well,
              below,
              long.1,
              λ j lt same.
                  free j lt (omega arith)
                    (ap (λ (y : QueuedInstr). y.instrument_id) (sym (long.3 j lt)) ∙ same),
            )

  method_later-IsContext : (p : ℕ) → Takes New IsContext (method_later jvm c m id p)
  unfolding method_later
  method_later-IsContext p =
      Takes-first New IsContext (instrument_later jvm c m id p) _ (Takes-instrument_later p)
        (λ status.
          Keeps-if IsContext (status == instrument_rp_error) _ (pure status)
            (Keeps-bind IsContext (jni_remove_profiler jvm p) _
              (Keeps-jni_remove_profiler IsContext jvm p) (λ u. Keeps-pure IsContext status))
            (Keeps-pure IsContext status))

  pub method_added-IsContext : Takes New IsContext (method_added jvm c m id)
  unfolding method_added
  method_added-IsContext =
      Takes-bind New IsContext (jni_create_profiler jvm id) _ (Keeps-jni_create_profiler New jvm id)
        (λ profiler_id.
          Takes-option New IsContext profiler_id _ _
            (Takes-remove jvm q t queued valid id free entry instrument_rp_error)
            (λ p.
              Takes-find_class jvm q t queued valid id free entry c _ (method_later-IsContext p)
                (λ ci at s i.
                  Ensures-weaken (λ a s'. Inv q t q.len id false s'.ctx) (λ a s'. IsContext s'.ctx)
                    _
                    (Ensures-instrument_now jvm q t q.len id false free ci c m true p s at i.0 i.1)
                    (λ a s' i'. Known-IsContext jvm q t queued valid id free entry s'.ctx i'))))

-- An entry was made for a request that goes on, or the request ends in a sound context.
abbrev IsStarted : QueuedInstrList → ClassInfoList → MiEntry → ℕ × ℕ → InstrCtx → Type 0
IsStarted q t e r ctx =
    ((r.0 == instrument_rp_ok) ≡ false) × IsContext ctx
    ⊎ ((r.0 == instrument_rp_ok) ≡ true) × Free q q.len r.1 × IsFresh q t r.1 e ctx

module _ (jvm : Jvm) (c m : Bytes) (s : Session) (ok : IsContext s.ctx)
    (last : s.ctx.master_instruments.next_id + 1 < 2 ^ 64) where
  abbrev Started : ℕ × ℕ → Session → Type 0
  Started r s' =
      IsStarted s.ctx.queued_instruments s.ctx.loaded_classes (mi_method c m true) r s'.ctx

  add_master_method-Started : Ensures Started (add_master_method jvm c m s)
  unfolding add_master_method mi_add_method
  add_master_method-Started = found (mi_find_method_by_name s.ctx.master_instruments c m)
    where
      new :
          (id : ℕ) (s' : Session)
          → IsMade s.ctx.queued_instruments s.ctx.loaded_classes (mi_method c m true) id s'.ctx
          → Started (if id == 0 then instrument_rp_error else instrument_rp_ok, id) s'
      new id s' (inl (none_made, sound)) = inl (ground arith, sound)
      new id s' (inr (ne, free, fresh)) = inr (ground arith, free, fresh)

      found :
          (r : Option (ℕ × MiEntry))
          → Ensures Started (
              (elim r as (λ _. Action (ℕ × ℕ)) [
                | none ↦
                    add_instrument jvm (λ mem mi. add_entry mem mi (mi_method c m true)) >>= λ id.
                    pure (if id == 0 then instrument_rp_error else instrument_rp_ok, id)
                | some r ↦ pure (instrument_rp_double_instrument, r.0)
              ])
                s)
      found none =
          Ensures-bind
            (λ id s'.
              IsMade s.ctx.queued_instruments s.ctx.loaded_classes (mi_method c m true) id s'.ctx)
            Started (add_instrument jvm (λ mem mi. add_entry mem mi (mi_method c m true))) _ s
            (add_instrument-IsMade jvm s (mi_method c m true) ok last) (λ id s' h. new id s' h)
      found (some r) = inl (refl, ok)

  -- A request to instrument a method keeps the context sound and has a result, whatever the JVM and
  -- the allocator answer, before the last of the 2 ^ 64 ids.
  pub ih_instrument_method-IsContext :
      Ensures (λ a s'. IsContext s'.ctx) (ih_instrument_method jvm c m s)
  unfolding ih_instrument_method
  ih_instrument_method-IsContext =
      Ensures-bind Started (λ a s'. IsContext s'.ctx) (add_master_method jvm c m) _ s
        add_master_method-Started (λ r s' h. goes_on r s' h)
    where
      goes_on :
          (r : ℕ × ℕ) (s' : Session)
          → Started r s'
          → Ensures
              (λ a s'. IsContext s'.ctx)
              ((if not (r.0 == instrument_rp_ok)
                  then pure r
                  else (method_added jvm c m r.1 >>= λ status. pure (status, r.1)))
                s')
      goes_on r s' (inl (e, sound)) = rw e sound
      goes_on r s' (inr (e, free, fresh)) = rw e (
          Ensures-bind (λ a s'. IsContext s'.ctx) (λ a s'. IsContext s'.ctx)
            (method_added jvm c m r.1) _ s'
            (method_added-IsContext jvm s.ctx.queued_instruments s.ctx.loaded_classes ok.queued
              ok.tab_valid r.1 free c m s' fresh)
            (λ status s2 sound. sound))
