-- ===== src/Instruments/Steps.antt =====
-- instrument-handler.c: the steps on the registry and on the classes keep the invariant.
use jauto_profiler_mcp.Prelude.{
  some_injective, ℕ, ◌<◌, ◌≡◌, refl, ap, ◌∙◌, sym, ◌≢◌, inl, inr, Bool, true, false, Option, none,
  some, arith, subst, ℕ_discrete,
}
use jauto_profiler_mcp.HashTab.{Bytes, hash_tab_lookup}
use jauto_profiler_mcp.ClassInfo.{ClassInfoList, ci_list_find_by_name}
use jauto_profiler_mcp.Queued.{QueuedInstrList, QiDetail, qi_line_enter, qi_line_exit}
use jauto_profiler_mcp.MasterInstruments.{
  MiEntry, MasterInstruments, mi_method, mi_line, mi_var_bind, mi_find, Mark, method_mark,
  line_entry_mark, line_exit_mark, var_bind_mark, marked, mi_mark_applied,
}
use jauto_profiler_mcp.MasterInstruments.Registry.{mi_remove-IsRegistry}
use jauto_profiler_mcp.MasterInstruments.Marks.{mi_mark_applied_lem}
use jauto_profiler_mcp.Instruments.{
  InstrCtx, Session, Action, ◌>>=◌, remove_instrument, mark_applied, find_class,
}
use jauto_profiler_mcp.Instruments.Ensures.{Ensures, Ensures-weaken, Keeps}
use jauto_profiler_mcp.Instruments.Sound.{
  IsSound, IsSound-Changed, Changed, Owed, Owed-other, Free, IsLineId, is_line_entry, waits, Listed,
}

-- what waits for the other side of a line does not wait for the mark
abbrev pub passes : Mark → QiDetail → Bool
passes line_entry_mark (qi_line_exit l) = true
passes line_exit_mark (qi_line_enter l) = true
passes mark d = false

marked-is_line_entry :
    (mark : Mark) (e e' : MiEntry) → marked mark e ≡ some e' → is_line_entry e' ≡ is_line_entry e
unfolding marked
marked-is_line_entry method_mark (mi_method c m d) e' h = cc
marked-is_line_entry line_entry_mark (mi_line c x a b d f) e' h = cc
marked-is_line_entry line_exit_mark (mi_line c x a b d f) e' h = cc
marked-is_line_entry var_bind_mark (mi_var_bind c v l d) e' h = cc
marked-is_line_entry method_mark (mi_line c x a b d f) e' h = cc
marked-is_line_entry method_mark (mi_var_bind c v l d) e' h = cc
marked-is_line_entry line_entry_mark (mi_method c m d) e' h = cc
marked-is_line_entry line_entry_mark (mi_var_bind c v l d) e' h = cc
marked-is_line_entry line_exit_mark (mi_method c m d) e' h = cc
marked-is_line_entry line_exit_mark (mi_var_bind c v l d) e' h = cc
marked-is_line_entry var_bind_mark (mi_method c m d) e' h = cc
marked-is_line_entry var_bind_mark (mi_line c x a b d f) e' h = cc

marked-waits :
    (mark : Mark) (q : QiDetail) (e e' : MiEntry)
    → passes mark q ≡ true
    → marked mark e ≡ some e'
    → waits q e ≡ true
    → waits q e' ≡ true
unfolding marked
marked-waits line_entry_mark (qi_line_exit l) (mi_line c x a b d f) e' p h w = ground arith
marked-waits line_exit_mark (qi_line_enter l) (mi_line c x a b d f) e' p h w = ground arith
marked-waits mark q e e' p h w = ground arith

next_id-mark :
    (mark : Mark) (mi : MasterInstruments) (id : ℕ)
    → (mi_mark_applied mark mi id).0.next_id ≡ mi.next_id
unfolding mi_mark_applied
next_id-mark mark mi id = ground arith

module _ (q : QueuedInstrList) (t : ClassInfoList) (k : ℕ) (id : ℕ) (kind : Bool) where
  -- The context is sound, and the id was given out, to a line if `kind` says so.
  abbrev pub Inv : InstrCtx → Type 0
  Inv ctx =
      IsSound q t k ctx
      × (id < ctx.master_instruments.next_id)
      × (kind ≡ true → IsLineId ctx.master_instruments id)

  -- A new registry in place of the old.
  pub Inv-Changed :
      (ctx : InstrCtx) (mi' : MasterInstruments)
      → Inv ctx
      → Changed q t k ctx.master_instruments mi' id
      → ((j : ℕ) → j < q.len → j ≢ k → Owed mi' (q.arr j))
      → Inv (record ctx { master_instruments = mi' })
  Inv-Changed ctx mi' (h, lt, line) ch owed = (
    IsSound-Changed q t k ctx mi' id h ch owed,
    omega (arith, lt, ch.next_is),
    λ is. ch.kind (line is),
  )

  module _ (free : Free q k id) where
    pub remove_instrument_lem :
        (s : Session)
        → Inv s.ctx
        → Ensures
            (λ a s'. Inv s'.ctx × (mi_find s'.ctx.master_instruments id ≡ none))
            (remove_instrument id s)
    unfolding remove_instrument
    remove_instrument_lem s (h, lt, line) =
        let mi = s.ctx.master_instruments in
        let (mi', run, reg, gone, others, next) =
          mi_remove-IsRegistry mi h.registry id (omega (arith, h.registry.in_range)) in
        let made : remove_instrument id s
            ≡ some (tt, record s { ctx = record s.ctx { master_instruments = mi' } }) =
          rw (run, remove_instrument) refl in
        let ch : Changed q t k mi mi' id = record {
          registry = reg;
          next_is = next;
          elsewhere = others;
          kind = λ is e found. absurd (cc);
        } in
        subst (Ensures (λ a s'. Inv s'.ctx × (mi_find s'.ctx.master_instruments id ≡ none)))
          (sym made)
          (
            Inv-Changed s.ctx mi' (h, lt, line) ch
                (λ j l ne.
                  Owed-other q t k mi mi' id ch h.registry (q.arr j) (free j l ne) (h.owed j l ne)),
            gone,
          )

    pub Keeps-remove_instrument : Keeps Inv (remove_instrument id)
    Keeps-remove_instrument s i =
        Ensures-weaken (λ a s'. Inv s'.ctx × (mi_find s'.ctx.master_instruments id ≡ none))
          (λ a s'. Inv s'.ctx) _ (remove_instrument_lem s i) (λ a s' p. p.0)

  -- Marking an entry, where what waits under its id waits for something else.
  pub mark_applied_lem :
      (mark : Mark)
      → ((j : ℕ)
          → j < q.len
          → j ≢ k
          → (q.arr j).instrument_id ≡ id
          → passes mark (q.arr j).detail ≡ true)
      → Keeps Inv (mark_applied mark id)
  unfolding mark_applied
  mark_applied_lem mark pass s (h, lt, line) =
      let mi = s.ctx.master_instruments in
      elim (mi_mark_applied_lem mark mi h.registry id (omega (arith, h.registry.in_range))) [
        | inl (run, why) ↦
            subst (λ r. Inv (record s.ctx { master_instruments = r })) (sym (ap (λ r. r.0) run))
              (h, lt, line)
        | inr (mi', e, e', run, was, to, is, reg, others) ↦
            let next : mi'.next_id ≡ mi.next_id =
              sym (ap (λ r. r.0.next_id) run) ∙ next_id-mark mark mi id in
            let ch : Changed q t k mi mi' id = record {
              registry = reg;
              next_is = next;
              elsewhere = others;
              kind = λ l f found.
                  let same : f ≡ e' = cc in
                  ap is_line_entry same ∙ marked-is_line_entry mark e e' to ∙ l e was;
            } in
            subst (λ r. Inv (record s.ctx { master_instruments = r })) (sym (ap (λ r. r.0) run))
              (Inv-Changed s.ctx mi' (h, lt, line) ch
                (λ j l ne. elim (ℕ_discrete (q.arr j).instrument_id id) [
                  | no other ↦
                      Owed-other q t k mi mi' id ch h.registry (q.arr j) other (h.owed j l ne)
                  | yes same ↦
                      let (e0, p, found, w, has, below) = h.owed j l ne in
                      let one : e0 ≡ e = some_injective (sym found ∙ ap (mi_find mi) same ∙ was) in
                      (
                        e',
                        p,
                        ap (mi_find mi') same ∙ is,
                        marked-waits mark (q.arr j).detail e e' (pass j l ne same) to
                            (subst (λ x. waits (q.arr j).detail x ≡ true) one w),
                        has,
                        omega (arith, below, next),
                      )
                ]))
      ]

  -- Looking for a class finds none or one of the list.
  pub Keeps-find_class :
      {B : Type 0} (name : Bytes) (f : Option ℕ → Action B)
      → Keeps Inv (f none)
      → ((a : ℕ) → Listed t a → Keeps Inv (f (some a)))
      → Keeps Inv (find_class name >>= f)
  unfolding find_class ci_list_find_by_name
  Keeps-find_class name f missing there s i =
      found (hash_tab_lookup s.ctx.loaded_classes.tab name)
        (ap (λ x. hash_tab_lookup x name) (sym i.0.tab_is))
    where
      found : (r : Option ℕ) → hash_tab_lookup t.tab name ≡ r → Ensures (λ a s'. Inv s'.ctx) (f r s)
      found none e = missing s i
      found (some a) e = there a (name, e) s i
