-- ===== src/Instruments/Settled.antt =====
-- instrument-handler.c: what waits in the registry, and marking and removing an instrument.
use jauto_profiler_mcp.Prelude.{
  ◌^◌, ◌<◌, ◌≡◌, refl, ap, ◌∙◌, sym, subst, inl, inr, Bool, true, false, none, some, ℕ_discrete,
  arith, some_injective,
}
use jauto_profiler_mcp.MasterInstruments.{
  MiEntry, MasterInstruments, Mark, mi_method, mi_line, method_mark, line_entry_mark,
  line_exit_mark, mi_mark_applied, mi_find, marked,
}
use jauto_profiler_mcp.MasterInstruments.Registry.{IsRegistry, Elsewhere, mi_remove-IsRegistry}
use jauto_profiler_mcp.MasterInstruments.Marks.{mi_mark_applied_lem}
use jauto_profiler_mcp.Queued.{
  QueuedInstr, QiDetail, qi_method, qi_line_enter, qi_line_exit, qi_var_bind,
}
use jauto_profiler_mcp.Instruments.{remove_instrument, mark_applied}
use jauto_profiler_mcp.Instruments.Sound.{waits}
use jauto_profiler_mcp.Instruments.Stays.{Leads}

-- an entry of the queue for which no instrument waits
abbrev pub Settled : QueuedInstr → MasterInstruments → Type 0
Settled qi mi = (e : MiEntry) → mi_find mi qi.instrument_id ≡ some e → waits qi.detail e ≡ false

-- the registry is in order, and what was settled in `before` still is
abbrev pub Later : MasterInstruments → MasterInstruments → Type 0
Later before mi =
    IsRegistry mi × ((x : QueuedInstr) → x.instrument_id < 2 ^ 64 → Settled x before → Settled x mi)

-- the mark that an entry of the queue is applied with
abbrev pub applies : Mark → QiDetail → Bool
applies method_mark (qi_method m) = true
applies line_entry_mark (qi_line_enter l) = true
applies line_exit_mark (qi_line_exit l) = true
applies mark d = false

-- A mark makes nothing wait, and what it applies waits no more.
marked-not_waits :
    (mark : Mark) (d : QiDetail) (e e' : MiEntry)
    → marked mark e ≡ some e'
    → waits d e ≡ false
    → waits d e' ≡ false
unfolding marked
marked-not_waits method_mark d (mi_method c m f) e' h w =
    subst (λ x. waits d x ≡ false) (some_injective h) (cleared d)
  where
    cleared : (d : QiDetail) → waits d (mi_method c m false) ≡ false
    cleared (qi_method m) = refl
    cleared (qi_line_enter l) = refl
    cleared (qi_line_exit l) = refl
    cleared (qi_var_bind v l) = refl
marked-not_waits line_entry_mark (qi_method m) (mi_line c x a b f g) e' h w =
    subst (λ y. waits (qi_method m) y ≡ false) (some_injective h) refl
marked-not_waits line_entry_mark (qi_line_enter l) (mi_line c x a b f g) e' h w =
    subst (λ y. waits (qi_line_enter l) y ≡ false) (some_injective h) refl
marked-not_waits line_entry_mark (qi_line_exit l) (mi_line c x a b f g) e' h w =
    subst (λ y. waits (qi_line_exit l) y ≡ false) (some_injective h) w
marked-not_waits line_entry_mark (qi_var_bind v l) (mi_line c x a b f g) e' h w =
    subst (λ y. waits (qi_var_bind v l) y ≡ false) (some_injective h) refl
marked-not_waits line_exit_mark (qi_method m) (mi_line c x a b f g) e' h w =
    subst (λ y. waits (qi_method m) y ≡ false) (some_injective h) refl
marked-not_waits line_exit_mark (qi_line_enter l) (mi_line c x a b f g) e' h w =
    subst (λ y. waits (qi_line_enter l) y ≡ false) (some_injective h) w
marked-not_waits line_exit_mark (qi_line_exit l) (mi_line c x a b f g) e' h w =
    subst (λ y. waits (qi_line_exit l) y ≡ false) (some_injective h) refl
marked-not_waits line_exit_mark (qi_var_bind v l) (mi_line c x a b f g) e' h w =
    subst (λ y. waits (qi_var_bind v l) y ≡ false) (some_injective h) refl
marked-not_waits mark d e e' h w = ground arith

applied-not_waits :
    (mark : Mark) (d : QiDetail) (e e' : MiEntry)
    → applies mark d ≡ true
    → marked mark e ≡ some e'
    → waits d e' ≡ false
unfolding marked
applied-not_waits mark d e e' is h = ground arith

unmarked-not_waits :
    (mark : Mark) (d : QiDetail) (e : MiEntry)
    → applies mark d ≡ true
    → marked mark e ≡ none
    → waits d e ≡ false
unfolding marked
unmarked-not_waits mark d e is h = ground arith

module _ (before : MasterInstruments) (qi : QueuedInstr) (range : qi.instrument_id < 2 ^ 64) where
  abbrev R : MasterInstruments → Type 0
  R = Later before

  abbrev R' : MasterInstruments → Type 0
  R' mi = R mi × Settled qi mi

  -- Marking the instrument.
  mark_later :
      (mark : Mark) (mi : MasterInstruments)
      → R mi
      → R (mi_mark_applied mark mi qi.instrument_id).0
        × (applies mark qi.detail ≡ true → Settled qi (mi_mark_applied mark mi qi.instrument_id).0)
        × (Settled qi mi → Settled qi (mi_mark_applied mark mi qi.instrument_id).0)
  mark_later mark mi (reg, kept) =
      let id = qi.instrument_id in
      elim (mi_mark_applied_lem mark mi reg id range) [
        | inl (run, why) ↦
            let same : mi ≡ (mi_mark_applied mark mi id).0 = sym (ap (λ r. r.0) run) in
            (
              subst R same (reg, kept),
              λ is. subst (Settled qi) same (elim why [
                | inl gone ↦ λ e there. absurd (cc)
                | inr (f, was, not_to) ↦ λ e there.
                    subst (λ x. waits qi.detail x ≡ false) (some_injective (sym was ∙ there))
                      (unmarked-not_waits mark qi.detail f is not_to)
              ]),
              λ old. subst (Settled qi) same old,
            )
        | inr (mi', e, e', run, was, to, is', reg', others) ↦
            let same : mi' ≡ (mi_mark_applied mark mi id).0 = sym (ap (λ r. r.0) run) in
            let moved = λ (x : QueuedInstr) (lt : x.instrument_id < 2 ^ 64) (old : Settled x mi).
              carried mark mi mi' e e' was to is' others x lt old in
            (
              subst R same (reg', λ x lt old. moved x lt (kept x lt old)),
              λ is. subst (Settled qi) same (λ f there.
                  subst (λ x. waits qi.detail x ≡ false) (some_injective (sym is' ∙ there))
                    (applied-not_waits mark qi.detail e e' is to)),
              λ old. subst (Settled qi) same (moved qi range old),
            )
      ]
    where
      carried :
          (mark : Mark) (mi mi' : MasterInstruments) (e e' : MiEntry)
          → mi_find mi qi.instrument_id ≡ some e
          → marked mark e ≡ some e'
          → mi_find mi' qi.instrument_id ≡ some e'
          → Elsewhere mi qi.instrument_id mi'
          → (x : QueuedInstr) → x.instrument_id < 2 ^ 64
          → Settled x mi
          → Settled x mi'
      carried mark mi mi' e e' was to is' others x lt old f there =
          elim (ℕ_discrete x.instrument_id qi.instrument_id) [
            | no ne ↦ old f (sym (others x.instrument_id lt ne) ∙ there)
            | yes same ↦
                subst (λ y. waits x.detail y ≡ false)
                  (some_injective (sym is' ∙ ap (mi_find mi') (sym same) ∙ there))
                  (marked-not_waits mark x.detail e e' to (old e (ap (mi_find mi) same ∙ was)))
          ]

  pub remove_settles : Leads R R' (remove_instrument qi.instrument_id)
  unfolding remove_instrument
  remove_settles s (reg, kept) =
      let (mi', run, reg', gone, others, next) =
        mi_remove-IsRegistry s.ctx.master_instruments reg qi.instrument_id range in
      rw run (
        (
          reg',
          λ x lt old. elim (ℕ_discrete x.instrument_id qi.instrument_id) [
            | no ne ↦ λ f there. kept x lt old f (sym (others x.instrument_id lt ne) ∙ there)
            | yes same ↦ λ f there. absurd (nothing mi' gone (ap (mi_find mi') (sym same) ∙ there))
          ],
        ),
        λ f there. absurd (nothing mi' gone there),
      )
    where
      nothing :
          (mi' : MasterInstruments) {f : MiEntry}
          → mi_find mi' qi.instrument_id ≡ none
          → mi_find mi' qi.instrument_id ≡ some f
          → ⊥
      nothing mi' gone there = cc

  pub mark_stays : (mark : Mark) → Leads R R (mark_applied mark qi.instrument_id)
  unfolding mark_applied
  mark_stays mark s r = (mark_later mark s.ctx.master_instruments r).0

  pub mark_stays' : (mark : Mark) → Leads R' R' (mark_applied mark qi.instrument_id)
  unfolding mark_applied
  mark_stays' mark s (r, old) = let m = mark_later mark s.ctx.master_instruments r in (m.0, m.2 old)

  pub mark_settles :
      (mark : Mark)
      → applies mark qi.detail ≡ true
      → Leads R R' (mark_applied mark qi.instrument_id)
  unfolding mark_applied
  mark_settles mark is s r = let m = mark_later mark s.ctx.master_instruments r in (m.0, m.1 is)
