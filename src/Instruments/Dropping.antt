-- ===== src/Instruments/Dropping.antt =====
-- instrument-handler.c: an instrument that waits is taken out of the queue, on both sides of a line.
use jauto_profiler_mcp.Prelude.{
  ℕ, ◌<◌, ◌≡◌, refl, ap, ◌∙◌, sym, ◌≢◌, inl, inr, Bool, true, not, Option, none, some, arith, subst,
  ◌==◌, ==_iff,
}
use jauto_profiler_mcp.DynArr.Items.{dynarr_remove-items}
use jauto_profiler_mcp.DynArr.All.{skip, IsShorter, dynarr_remove-IsShorter}
use jauto_profiler_mcp.ClassInfo.{ClassInfoList}
use jauto_profiler_mcp.Queued.{
  QueuedInstr, QueuedInstrList, QiDetail, qi_method, qi_line_enter, qi_line_exit, qi_var_bind,
  find_from, queued_instr_list_find_by_instrument_id, queued_instr_list_remove_and_destroy,
}
use jauto_profiler_mcp.Queued.Search.{FindsFirst, find_from-FindsFirst}
use jauto_profiler_mcp.Instruments.{InstrCtx, Session, Action, pure, gets, ◌>>=◌, ◌>>◌}
use jauto_profiler_mcp.Instruments.Deferred.{
  queued_at, remove_queued, find_queued, remove_second, remove_queued_instr_by_id, is_line, same_id,
  is_some, assert,
}
use jauto_profiler_mcp.Instruments.Ensures.{Ensures, Ensures-bind}
use jauto_profiler_mcp.Instruments.Sound.{IsSound, IsQueued, Free, opposite}
use jauto_profiler_mcp.Instruments.Queue.{
  IsSound-skip, IsQueued-removed, IsSound-removed, skip-other, skip-below,
}

-- the queue and the context are sound, with the queue of the context
abbrev pub IsWell : ClassInfoList → InstrCtx → Type 0
IsWell t ctx =
    IsQueued ctx.queued_instruments
    × IsSound ctx.queued_instruments t ctx.queued_instruments.len ctx

-- the context after the entry `idx` of the queue was removed from `before`
abbrev pub Without :
    (t : ClassInfoList) (before : InstrCtx) → IsWell t before → ℕ → InstrCtx → Type 0
Without t before ok idx ctx =
    IsWell t ctx
    × IsShorter before.queued_instruments ctx.queued_instruments ok.0.valid idx
    × (ctx.master_instruments ≡ before.master_instruments)

pub remove_queued-Without :
    (t : ClassInfoList) (s : Session) (ok : IsWell t s.ctx) (idx : ℕ)
    → idx < s.ctx.queued_instruments.len
    → Ensures (λ a s'. Without t s.ctx ok idx s'.ctx) (remove_queued idx s)
unfolding remove_queued queued_instr_list_remove_and_destroy
remove_queued-Without t s (queued, h) idx lt =
    let q = s.ctx.queued_instruments in
    let (q', run, valid, is) = dynarr_remove-items q queued.valid idx lt in
    let short = dynarr_remove-IsShorter q q' queued.valid idx run in
    rw run (
      (
        IsQueued-removed q q' queued idx short,
        IsSound-removed q q' queued idx short t q'.len s.ctx (IsSound-skip q t idx s.ctx h),
      ),
      short,
      refl,
    )

opposite-is_line : (a b : QiDetail) → opposite a b ≡ true → (is_line a ≡ true) × (is_line b ≡ true)
opposite-is_line (qi_line_enter l) (qi_line_exit m) e = (refl, refl)
opposite-is_line (qi_line_exit l) (qi_line_enter m) e = (refl, refl)
opposite-is_line (qi_line_enter l) (qi_line_enter m) e = cc
opposite-is_line (qi_line_enter l) (qi_method m) e = cc
opposite-is_line (qi_line_enter l) (qi_var_bind v m) e = cc
opposite-is_line (qi_line_exit l) (qi_line_exit m) e = cc
opposite-is_line (qi_line_exit l) (qi_method m) e = cc
opposite-is_line (qi_line_exit l) (qi_var_bind v m) e = cc
opposite-is_line (qi_method m) b e = cc
opposite-is_line (qi_var_bind v m) b e = cc

-- A line has two sides.
opposite-third :
    (a b c : QiDetail) → opposite a b ≡ true → opposite a c ≡ true → opposite b c ≡ true → ⊥
opposite-third (qi_line_enter l) (qi_line_exit m) (qi_line_exit n) ab ac bc = cc
opposite-third (qi_line_exit l) (qi_line_enter m) (qi_line_enter n) ab ac bc = cc
opposite-third a b c ab ac bc = ground arith

same_id_refl : (a b : Option ℕ) → a ≡ b → same_id a b ≡ true
same_id_refl none none e = refl
same_id_refl (some a) (some b) e = ground arith
same_id_refl none (some b) e = cc
same_id_refl (some a) none e = cc

module _ (t : ClassInfoList) (id : ℕ) where
  abbrev has_id : QueuedInstr → Bool
  has_id qi = qi.instrument_id == id

  -- nothing waits under the id, and the registry is as it was
  abbrev pub Dropped : InstrCtx → InstrCtx → Type 0
  Dropped before ctx =
      IsWell t ctx
      × Free ctx.queued_instruments ctx.queued_instruments.len id
      × (ctx.master_instruments ≡ before.master_instruments)

  Free-all : (q : QueuedInstrList) → FindsFirst has_id q.arr 0 q.len none → Free q q.len id
  Free-all q all j lt ne same = ground (arith, all j (omega arith) (omega arith))

  hit-id : (q : QueuedInstrList) (k : ℕ) → has_id (q.arr k) ≡ true → (q.arr k).instrument_id ≡ id
  hit-id q k h = (==_iff _ _).0 h

  -- entries with the id are the two sides of a line
  sides :
      (q : QueuedInstrList)
      → IsQueued q
      → (i j : ℕ) → i < q.len
      → j < q.len
      → i ≢ j
      → (q.arr i).instrument_id ≡ id
      → (q.arr j).instrument_id ≡ id
      → (opposite (q.arr i).detail (q.arr j).detail ≡ true)
        × ((q.arr i).profiler_id ≡ (q.arr j).profiler_id)
  sides q ok i j il jl ne ei ej = elim (ok.apart i j il jl ne) [
    | inl other ↦ absurd (other (ei ∙ sym ej))
    | inr both ↦ both
  ]

  module _ (s : Session) (ok : IsWell t s.ctx) where
    abbrev q : QueuedInstrList
    q = s.ctx.queued_instruments

    -- After both sides were removed, no entry has the id.
    none_third :
        (k : ℕ) (s1 : Session) (w : Without t s.ctx ok k s1.ctx)
        → k < q.len
        → (q.arr k).instrument_id ≡ id
        → (l : ℕ) → l < s1.ctx.queued_instruments.len
        → (s1.ctx.queued_instruments.arr l).instrument_id ≡ id
        → (s2 : Session) → Without t s1.ctx w.0 l s2.ctx
        → (j : ℕ) → j < s2.ctx.queued_instruments.len
        → (s2.ctx.queued_instruments.arr j).instrument_id ≢ id
    none_third k s1 w kl ek l ll el s2 w2 j jl ej =
        let (well, (valid, len, is), reg) = w in
        let (well2, (valid2, len2, is2), reg2) = w2 in
        let q1 = s1.ctx.queued_instruments in
        let m : ℕ = skip l j in
        let ml : m < q1.len = skip-below l j _ _ len2 jl in
        let em : (q1.arr m).instrument_id ≡ id =
          subst (λ (x : QueuedInstr). x.instrument_id ≡ id) (is2 j jl) ej in
        let in_q = λ (i : ℕ) (il : i < q1.len) (e : (q1.arr i).instrument_id ≡ id).
          subst (λ (x : QueuedInstr). x.instrument_id ≡ id) (is i il) e in
        let with_k = λ (i : ℕ) (il : i < q1.len) (e : (q1.arr i).instrument_id ≡ id).
          sides q ok.0 k (skip k i) kl (skip-below k i _ _ len il)
            (λ same. skip-other k i (sym same)) ek (in_q i il e) in
        let pair = sides q1 well.0 l m ll ml (λ same. skip-other l j (sym same)) el em in
        opposite-third (q.arr k).detail (q1.arr l).detail (q1.arr m).detail
          (subst (λ (x : QueuedInstr). opposite (q.arr k).detail x.detail ≡ true) (sym (is l ll))
            (with_k l ll el).0)
          (subst (λ (x : QueuedInstr). opposite (q.arr k).detail x.detail ≡ true) (sym (is m ml))
            (with_k m ml em).0)
          pair.0

    remove_second-Dropped :
        (k : ℕ) (s1 : Session) (w : Without t s.ctx ok k s1.ctx)
        → k < q.len
        → (q.arr k).instrument_id ≡ id
        → (l : ℕ) → l < s1.ctx.queued_instruments.len
        → (s1.ctx.queued_instruments.arr l).instrument_id ≡ id
        → Ensures (λ a s'. Dropped s.ctx s'.ctx) (remove_second id (q.arr k) l s1)
    unfolding remove_second find_queued queued_instr_list_find_by_instrument_id
    remove_second-Dropped k s1 w kl ek l ll el =
        let (well, (valid, len, is), reg) = w in
        let q1 = s1.ctx.queued_instruments in
        let el' = subst (λ (x : QueuedInstr). x.instrument_id ≡ id) (is l ll) el in
        let (opp, prof) =
          sides q ok.0 k (skip k l) kl (skip-below k l _ _ len ll)
            (λ same. skip-other k l (sym same)) ek el' in
        let (kline, oline) = opposite-is_line (q.arr k).detail (q.arr (skip k l)).detail opp in
        let lline = subst (λ (x : QueuedInstr). is_line x.detail ≡ true) (sym (is l ll)) oline in
        let same =
          same_id_refl (q1.arr l).profiler_id (q.arr k).profiler_id
            (ap (λ (x : QueuedInstr). x.profiler_id) (is l ll) ∙ sym prof) in
        rw (kline, same, lline)
          (Ensures-bind (λ a s'. Without t s1.ctx well l s'.ctx) (λ a s'. Dropped s.ctx s'.ctx)
            (remove_queued l) _ s1 (remove_queued-Without t s1 well l ll)
            (λ a s2 w2.
              last s2 (q.arr k).profiler_id w2.0 (w2.2 ∙ reg)
                (none_third k s1 w kl ek l ll el s2 w2)
                (find_from has_id s2.ctx.queued_instruments.arr 0 s2.ctx.queued_instruments.len)
                (find_from-FindsFirst has_id s2.ctx.queued_instruments.arr 0
                  s2.ctx.queued_instruments.len)))
      where
        last :
            (s2 : Session) (p : Option ℕ)
            → IsWell t s2.ctx
            → s2.ctx.master_instruments ≡ s.ctx.master_instruments
            → ((j : ℕ)
                → j < s2.ctx.queued_instruments.len
                → (s2.ctx.queued_instruments.arr j).instrument_id ≢ id)
            → (r : Option ℕ)
            → FindsFirst has_id s2.ctx.queued_instruments.arr 0 s2.ctx.queued_instruments.len r
            → Ensures (λ a s'. Dropped s.ctx s'.ctx) ((assert (not (is_some r)) >> pure p) s2)
        last s2 p well reg none_left none all = (well, Free-all s2.ctx.queued_instruments all, reg)
        last s2 p well reg none_left (some j) (lo, hi, hit, before) =
            absurd (none_left j (omega arith) (hit-id s2.ctx.queued_instruments j hit))

    -- Dropping an instrument from the queue fails no assertion, and then nothing waits under its id.
    pub remove_queued_instr_by_id-Dropped :
        Ensures (λ a s'. Dropped s.ctx s'.ctx) (remove_queued_instr_by_id id s)
    unfolding remove_queued_instr_by_id find_queued queued_instr_list_find_by_instrument_id
    remove_queued_instr_by_id-Dropped =
        first (find_from has_id q.arr 0 q.len) (find_from-FindsFirst has_id q.arr 0 q.len)
      where
        second :
            (k : ℕ) (s1 : Session)
            → Without t s.ctx ok k s1.ctx
            → k < q.len
            → (q.arr k).instrument_id ≡ id
            → (r : Option ℕ)
            → FindsFirst has_id s1.ctx.queued_instruments.arr 0 s1.ctx.queued_instruments.len r
            → Ensures
                (λ a s'. Dropped s.ctx s'.ctx)
                ((elim r as (λ _. Action (Option ℕ)) [
                  | none ↦ pure (q.arr k).profiler_id
                  | some l ↦ remove_second id (q.arr k) l
                ])
                  s1)
        second k s1 w kl ek none all = (w.0, Free-all s1.ctx.queued_instruments all, w.2)
        second k s1 w kl ek (some l) (lo, hi, hit, before) =
            remove_second-Dropped k s1 w kl ek l (omega arith)
              (hit-id s1.ctx.queued_instruments l hit)

        first :
            (r : Option ℕ)
            → FindsFirst has_id q.arr 0 q.len r
            → Ensures
                (λ a s'. Dropped s.ctx s'.ctx)
                ((elim r as (λ _. Action (Option ℕ)) [
                  | none ↦ pure none
                  | some k ↦ gets (queued_at k) >>= λ qi.
                      remove_queued k
                      >> (find_queued id >>= λ again. elim again [
                        | none ↦ pure qi.profiler_id
                        | some l ↦ remove_second id qi l
                      ])
                ])
                  s)
        first none all = (ok, Free-all q all, refl)
        first (some k) (lo, hi, hit, before) =
            Ensures-bind (λ a s'. Without t s.ctx ok k s'.ctx) (λ a s'. Dropped s.ctx s'.ctx)
              (remove_queued k) _ s (remove_queued-Without t s ok k (omega arith))
              (λ a s1 w.
                second k s1 w (omega arith) (hit-id q k hit)
                  (find_from has_id s1.ctx.queued_instruments.arr 0 s1.ctx.queued_instruments.len)
                  (find_from-FindsFirst has_id s1.ctx.queued_instruments.arr 0
                    s1.ctx.queued_instruments.len))
