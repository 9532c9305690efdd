-- ===== src/Instruments/Loading.antt =====
-- instrument-handler.c: the loop over what waits for a class that was loaded.
use jauto_profiler_mcp.Prelude.{
  ℕ, zero, suc, ◌<◌, ◌≡◌, refl, ap, ◌∙◌, sym, Bool, true, Option, none, some, arith, subst, ◌+◌,
  ◌-◌, ◌^◌, ◌≢◌, inl, inr, false, ℕ_discrete, Bool-cases, ltb,
}
use jauto_profiler_mcp.MasterInstruments.{MasterInstruments}
use jauto_profiler_mcp.DynArr.All.{skip, IsShorter}
use jauto_profiler_mcp.Instruments.Stays.{After, Leads, Leads-deref}
use jauto_profiler_mcp.Instruments.Settling.{do_deferred_settles}
use jauto_profiler_mcp.Instruments.Settled.{Later, Settled}
use jauto_profiler_mcp.HashTab.{Bytes, keycmp}
use jauto_profiler_mcp.DynArr.Items.{items}
use jauto_profiler_mcp.DynArr.Without.{without, without-items_removed, without-items_none}
use jauto_profiler_mcp.ClassInfo.{ClassInfoList}
use jauto_profiler_mcp.Queued.{
  QueuedInstr, QueuedInstrList, queued_instr_list_find_by_class, find_from,
  queued_instr_list_remove_and_destroy,
}
use jauto_profiler_mcp.Queued.Search.{FindsFirst, find_from-FindsFirst}
use jauto_profiler_mcp.Instruments.{
  set_queue, Jvm, Session, Action, pure, ◌>>=◌, ◌>>◌, gets, class_of,
}
use jauto_profiler_mcp.Instruments.Deferred.{
  remove_queued, do_deferred, do_deferred_instrumentations, ih_apply_deferred_instrumentations,
  queued_at,
}
use jauto_profiler_mcp.Instruments.Ensures.{Ensures, Ensures-bind, Ensures-weaken}
use jauto_profiler_mcp.Instruments.Sound.{IsSound, IsQueued, IsContext, IsContext-again, Listed}
use jauto_profiler_mcp.Instruments.Queue.{IsTaken, remove_queued-IsTaken}
use jauto_profiler_mcp.Instruments.Waiting.{do_deferred-Done}

-- whether an entry waits for a class
abbrev pub is_for : Bytes → QueuedInstr → Bool
is_for name qi = keycmp qi.class_name name

-- What a step ensures, and what holds of the registry after it, hold both.
both :
    {A : Type 0} (Q : A → Session → Type 0) (R : MasterInstruments → Type 0)
    (r : Option (A × Session))
    → Ensures Q r
    → After R r
    → Ensures (λ a s. Q a s × R s.ctx.master_instruments) r
both Q R none h after = h
both Q R (some (a, s)) h after = (h, after)

stays_remove_queued : (R : MasterInstruments → Type 0) (k : ℕ) → Leads R R (remove_queued k)
unfolding remove_queued
stays_remove_queued R k s r =
    Leads-deref R R (queued_instr_list_remove_and_destroy s.ctx.queued_instruments k) set_queue
      (λ q' s r. r) s r

not_both : (b : Bool) → b ≡ true → b ≡ false → ⊥
not_both b t f = cc

in_range :
    {t : ClassInfoList} (q : QueuedInstrList) (k : ℕ) (s : Session)
    → IsSound q t q.len s.ctx
    → k < q.len
    → (q.arr k).instrument_id < 2 ^ 64
in_range q k s h lt =
    let (e, p, found, w, has, below) = h.owed k lt (omega arith) in
    let top = h.registry.in_range in omega arith

-- An entry of the queue other than `k` is left by the removal of `k`.
left_at :
    (k j : ℕ) → j ≢ k → (n m : ℕ) → n + 1 ≡ m → k < m → j < m → (i : ℕ) × (i < n) × (skip k i ≡ j)
left_at k j ne n m len kl jl = elim (Bool-cases (ltb j k)) [
  | inl e ↦ (j, ground arith, ground arith)
  | inr e ↦ (j - 1, ground arith, ground arith)
]

-- after the entry was applied, in a round that starts in `s`
abbrev Applied : Session → QueuedInstr → MasterInstruments → Type 0
Applied s qi mi = Later s.ctx.master_instruments mi × Settled qi mi

module _ (jvm : Jvm) (t : ClassInfoList) (ci : ℕ) (listed : Listed t ci)
    (readable : (i : ℕ) → jvm.freed i ≡ true) where
  abbrev name : Bytes
  name = (t.store ci).name

  -- The queue `q` is left without the entries of the class, which are settled, and the context is sound.
  -- What was settled in the registry `before` still is.
  abbrev pub Drained : MasterInstruments → QueuedInstrList → Session → Type 0
  Drained before q s =
      Later before s.ctx.master_instruments
      × ((j : ℕ)
          → j < q.len
          → is_for name (q.arr j) ≡ true
          → Settled (q.arr j) s.ctx.master_instruments)
      × IsQueued s.ctx.queued_instruments
      × IsSound s.ctx.queued_instruments t s.ctx.queued_instruments.len s.ctx
      × (items s.ctx.queued_instruments ≡ without (is_for name) (items q))

  each_settled :
      (q q' : QueuedInstrList) (k : ℕ) (ok : IsQueued q)
      → k < q.len
      → IsShorter q q' ok.valid k
      → (mi : MasterInstruments) → Settled (q.arr k) mi
      → ((j : ℕ) → j < q'.len → is_for name (q'.arr j) ≡ true → Settled (q'.arr j) mi)
      → (j : ℕ) → j < q.len
      → is_for name (q.arr j) ≡ true
      → Settled (q.arr j) mi
  each_settled q q' k ok lt short mi one rest j jl hit = elim (ℕ_discrete j k) [
    | yes same ↦ subst (λ i. Settled (q.arr i) mi) (sym same) one
    | no ne ↦
        let (i, il, at) = left_at k j ne q'.len q.len short.1 lt jl in
        let is : q'.arr i ≡ q.arr j = short.2 i il ∙ ap q.arr at in
        subst (λ x. Settled x mi) is (rest i il (ap (is_for name) is ∙ hit))
  ]

  abbrev rounds : ℕ → Action (Unit {0})
  rounds n = do_deferred_instrumentations jvm n ci

  -- what the rounds do, on a queue that they have enough rounds for
  abbrev IsDraining : ℕ → Type 0
  IsDraining n =
      (q : QueuedInstrList)
      → IsQueued q
      → q.len < n
      → (s : Session) → IsSound q t q.len s.ctx
      → Ensures (λ a s'. Drained s.ctx.master_instruments q s') (rounds n s)

  -- The round for the entry `k`, given what the later rounds do.
  round-Drained :
      (n : ℕ)
      → IsDraining n
      → (q : QueuedInstrList) → IsQueued q
      → q.len < suc n
      → (s : Session) → IsSound q t q.len s.ctx
      → (k : ℕ) → k < q.len
      → is_for name (q.arr k) ≡ true
      → Ensures
          (λ a s'. Drained s.ctx.master_instruments q s')
          ((do_deferred jvm ci (q.arr k) (q.arr k).detail >> (remove_queued k >> rounds n)) s)
  round-Drained n later q ok fuel s h k lt hit =
      let before = s.ctx.master_instruments in
      Ensures-bind (λ a s'. IsSound q t k s'.ctx × Applied s (q.arr k) s'.ctx.master_instruments)
        (λ a s'. Drained before q s') (do_deferred jvm ci (q.arr k) (q.arr k).detail)
        (λ _. remove_queued k >> rounds n) s
        (both (λ a s'. IsSound q t k s'.ctx) (Applied s (q.arr k)) _
          (do_deferred-Done jvm q t ok k lt ci listed s h readable (q.arr k).detail refl)
          (do_deferred_settles jvm before (q.arr k) (in_range q k s h lt) ci (q.arr k).detail refl s
            (h.registry, λ x below old. old)))
        (λ a s1 i1.
          Ensures-bind
            (λ b s'. IsTaken q t ok k lt s'.ctx × Applied s (q.arr k) s'.ctx.master_instruments)
            (λ b s'. Drained before q s') (remove_queued k) (λ _. rounds n) s1
            (both (λ a s'. IsTaken q t ok k lt s'.ctx) (Applied s (q.arr k)) _
              (remove_queued-IsTaken q t ok k lt s1 i1.0)
              (stays_remove_queued (Applied s (q.arr k)) k s1 i1.1))
            (λ b s2 i2.
              let ((q', ok', short, is, h'), (l, settled)) = i2 in
              Ensures-weaken (λ c s'. Drained s2.ctx.master_instruments q' s')
                (λ c s'. Drained before q s') (rounds n s2)
                (later q' ok' (omega (arith, short.1)) s2 h')
                (λ c s3 i3.
                  let (l3, settled3, ok3, h3, e) = i3 in
                  (
                    (l3.0, λ x below old. l3.1 x below (l.1 x below old)),
                    each_settled q q' k ok lt short s3.ctx.master_instruments
                        (l3.1 (q.arr k) (in_range q k s h lt) settled) settled3,
                    ok3,
                    h3,
                    e
                        ∙ ap (without (is_for name)) is
                        ∙ without-items_removed (is_for name) q k lt hit,
                  ))))

  rounds-Drained : (n : ℕ) → IsDraining n
  unfolding do_deferred_instrumentations queued_instr_list_find_by_class
  rounds-Drained zero q ok lt s h = absurd (omega arith)
  rounds-Drained (suc n) q ok lt s h =
      rw
        (
          Ensures,
          ap (λ x. find_from (is_for x) s.ctx.queued_instruments.arr 0 s.ctx.queued_instruments.len)
                (h.names ci)
              ∙ ap (λ (x : QueuedInstrList). find_from (is_for name) x.arr 0 x.len) h.queue_is,
        )
        (found (rounds-Drained n) (find_from (is_for name) q.arr 0 q.len)
          (find_from-FindsFirst (is_for name) q.arr 0 q.len))
    where
      found :
          IsDraining n
          → (r : Option ℕ) → FindsFirst (is_for name) q.arr 0 q.len r
          → Ensures
              (λ a s'. Drained s.ctx.master_instruments q s')
              ((elim r as (λ _. Action (Unit {0})) [
                | none ↦ pure tt
                | some idx ↦ gets (queued_at idx) >>= λ qi.
                    do_deferred jvm ci qi qi.detail >> (remove_queued idx >> rounds n)
              ])
                s)
      found later none all = (
        (h.registry, λ x below old. old),
        λ j jl hit.
            absurd (not_both (is_for name (q.arr j)) hit (all j (omega arith) (omega arith))),
        subst IsQueued (sym h.queue_is) ok,
        subst (λ x. IsSound x t x.len s.ctx) (sym h.queue_is) h,
        ap items h.queue_is ∙ sym (without-items_none (is_for name) q all),
      )
      found later (some k) (lo, hi, hit, before) =
          subst
            (λ (x : QueuedInstrList).
              Ensures (λ a s'. Drained s.ctx.master_instruments q s')
                ((do_deferred jvm ci (x.arr k) (x.arr k).detail >> (remove_queued k >> rounds n))
                  s))
            (sym h.queue_is) (round-Drained n later q ok lt s h k (omega arith) hit)

-- The loop over what waits for a class that was loaded. On a sound context, and where the read of an
-- entry that was freed does no harm, there is a result: nothing is read through NULL, no assertion
-- fails, and the loop ends after as many rounds as the queue is long. Then the context is sound, the list
-- has the same classes, the queue is left without the entries of the class, the others in their order,
-- and each entry of the class that was in the queue is settled: if the registry still has its
-- instrument, that is no more marked as waiting on the side of the entry.
pub ih_apply_deferred_instrumentations-Drained :
    (jvm : Jvm) (ci : ℕ) (s : Session)
    → IsContext s.ctx
    → Listed s.ctx.loaded_classes ci
    → ((i : ℕ) → jvm.freed i ≡ true)
    → Ensures
        (λ a s'.
          IsContext s'.ctx
          × (s'.ctx.loaded_classes.tab ≡ s.ctx.loaded_classes.tab)
          × (items s'.ctx.queued_instruments
              ≡ without (is_for (class_of s ci).name) (items s.ctx.queued_instruments))
          × ((j : ℕ)
              → j < s.ctx.queued_instruments.len
              → is_for (class_of s ci).name (s.ctx.queued_instruments.arr j) ≡ true
              → Settled (s.ctx.queued_instruments.arr j) s'.ctx.master_instruments))
        (ih_apply_deferred_instrumentations jvm ci s)
unfolding ih_apply_deferred_instrumentations
ih_apply_deferred_instrumentations-Drained jvm ci s ok listed readable =
    Ensures-weaken
      (λ a s'.
        Drained jvm s.ctx.loaded_classes ci listed readable s.ctx.master_instruments
          s.ctx.queued_instruments s')
      _ _
      (rounds-Drained jvm s.ctx.loaded_classes ci listed readable (suc s.ctx.queued_instruments.len)
        s.ctx.queued_instruments ok.queued (omega arith) s ok.sound)
      (λ a s' i.
        let (later, settled, queued, sound, left) = i in
        (
          IsContext-again s.ctx.loaded_classes s'.ctx queued ok.tab_valid sound,
          sound.tab_is,
          left,
          settled,
        ))
