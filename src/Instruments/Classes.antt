-- ===== src/Instruments/Classes.antt =====
-- instrument-handler.c: putting instruments into a class and taking them out keeps the invariant.
use jauto_profiler_mcp.Prelude.{
  ℕ, ◌+◌, ◌<◌, ◌≡◌, refl, ap, ◌∙◌, sym, inl, inr, Bool, Option, none, some, arith, ◌==◌, subst,
  ℕ_discrete, ◌>>=◌,
}
use jauto_profiler_mcp.HashTab.{Bytes, keycmp}
use jauto_profiler_mcp.DynArr.{DynArr, dynarr_add}
use jauto_profiler_mcp.DynArr.All.{skip, dynarr_add-IsLonger, dynarr_remove-IsShorter}
use jauto_profiler_mcp.ClassInfo.{
  ClassInfo, ClassInfoList, InstrumentedMethod, InstrumentedLine, InstrumentType,
  ci_remove_instrumented_line, ci_remove_instrumented_by_sig, ci_add_instrumented_line,
  instrumented_method_list_add_and_init,
}
use jauto_profiler_mcp.ClassInfo.Instruments.{found_first}
use jauto_profiler_mcp.Queued.{QueuedInstrList}
use jauto_profiler_mcp.MasterInstruments.{MasterInstruments}
use jauto_profiler_mcp.Instruments.{Session, class_of, put_class}
use jauto_profiler_mcp.Instruments.Apply.{remove_line, remove_by_sig}
use jauto_profiler_mcp.Instruments.Ensures.{Ensures, Keeps}
use jauto_profiler_mcp.Instruments.Sound.{IsSound-class, IsLineId, IsApplied, Listed, Placed}
use jauto_profiler_mcp.Instruments.Steps.{Inv}

module _ (mi : MasterInstruments) (q : QueuedInstrList) (k : ℕ) (c : ClassInfo)
    (ok : IsApplied mi q k c) where
  skip-lt : (index j n m : ℕ) → n + 1 ≡ m → j < n → skip index j < m
  skip-lt index j n m e lt = ground arith

  pub remove_line-IsApplied :
      (line_number : ℕ)
      → (c' : ClassInfo) × (p : Option ℕ) × (ci_remove_instrumented_line c line_number
          ≡ some (c', p))
        × IsApplied mi q k c'
        × (c'.name ≡ c.name)
  unfolding ci_remove_instrumented_line
  remove_line-IsApplied line_number =
      elim (found_first (λ (l : InstrumentedLine). l.line_number == line_number) c.lines
        ok.lines_valid) [
          | inl (e, all) ↦ (c, none, rw (e, ci_remove_instrumented_line) refl, ok, refl)
          | inr (i, b, e, run, found) ↦
              let (valid, len, is) = dynarr_remove-IsShorter c.lines b ok.lines_valid i run in
              (
                record c { lines = b },
                some (c.lines.arr i).profiler_id,
                rw (e, ci_remove_instrumented_line) (rw run refl),
                record {
                  methods_valid = ok.methods_valid;
                  lines_valid = valid;
                  methods = ok.methods;
                  lines = λ j lt.
                      subst
                        (λ (l : InstrumentedLine).
                          Placed mi q k l.instrument_id × IsLineId mi l.instrument_id)
                        (sym (is j lt))
                        (ok.lines (skip i j) (skip-lt i j b.len c.lines.len len lt));
                },
                refl,
              )
        ]

  pub remove_by_sig-IsApplied :
      (method_sig : Bytes)
      → (c' : ClassInfo) × (p : Option (ℕ × ℕ)) × (ci_remove_instrumented_by_sig c method_sig
          ≡ some (c', p))
        × IsApplied mi q k c'
        × (c'.name ≡ c.name)
  unfolding ci_remove_instrumented_by_sig
  remove_by_sig-IsApplied method_sig =
      elim (found_first (λ (m : InstrumentedMethod). keycmp m.method_sig method_sig) c.instrumented
        ok.methods_valid) [
          | inl (e, all) ↦ (c, none, rw (e, ci_remove_instrumented_by_sig) refl, ok, refl)
          | inr (i, b, e, run, found) ↦
              let (valid, len, is) =
                dynarr_remove-IsShorter c.instrumented b ok.methods_valid i run in
              (
                record c { instrumented = b },
                some ((c.instrumented.arr i).profiler_id, (c.instrumented.arr i).instrument_id),
                rw (e, ci_remove_instrumented_by_sig) (rw run refl),
                record {
                  methods_valid = valid;
                  lines_valid = ok.lines_valid;
                  methods = λ j lt.
                      subst (λ (m : InstrumentedMethod). Placed mi q k m.instrument_id)
                        (sym (is j lt))
                        (ok.methods (skip i j) (skip-lt i j b.len c.instrumented.len len lt));
                  lines = ok.lines;
                },
                refl,
              )
        ]

  pub add_line-IsApplied :
      (grow_ok : Bool) (line_number p id : ℕ) (type : InstrumentType) (c' : ClassInfo)
      → ci_add_instrumented_line grow_ok c line_number p id type ≡ some c'
      → Placed mi q k id
      → IsLineId mi id
      → IsApplied mi q k c' × (c'.name ≡ c.name)
  unfolding ci_add_instrumented_line
  add_line-IsApplied grow_ok line_number p id type c' run placed line =
      let new : InstrumentedLine = record {
        line_number = line_number;
        profiler_id = p;
        instrument_id = id;
        type = type;
      } in
      from_add (dynarr_add grow_ok c.lines new) refl run
    where
      from_add :
          (r : Option (DynArr InstrumentedLine))
          → dynarr_add grow_ok c.lines (record {
            line_number = line_number;
            profiler_id = p;
            instrument_id = id;
            type = type;
          })
            ≡ r
          → (r >>= λ l. some (record c { lines = l })) ≡ some c'
          → IsApplied mi q k c' × (c'.name ≡ c.name)
      from_add none e is = absurd (cc)
      from_add (some b) e is =
          let (valid, len, last, before) =
            dynarr_add-IsLonger c.lines b ok.lines_valid grow_ok _ e in
          let same : record c { lines = b } ≡ c' =
            ap (λ o. elim o as (λ _. ClassInfo) [ none ↦ c | some x ↦ x ]) is in
          (
            subst (IsApplied mi q k) same (record {
              methods_valid = ok.methods_valid;
              lines_valid = valid;
              methods = ok.methods;
              lines = λ j lt.
                  let P = λ (l : InstrumentedLine).
                    Placed mi q k l.instrument_id × IsLineId mi l.instrument_id in
                  elim (ℕ_discrete j c.lines.len) [
                    | yes at ↦ subst P (sym (ap b.arr at ∙ last)) (placed, line)
                    | no other ↦
                        subst P (sym (before j (omega (arith, len))))
                          (ok.lines j (omega (arith, len)))
                  ];
            }),
            ap (λ x. x.name) (sym same),
          )

  pub add_method-IsApplied :
      (grow_ok : Bool) (method_sig : Bytes) (p id : ℕ) (b : DynArr InstrumentedMethod)
      → instrumented_method_list_add_and_init grow_ok c.instrumented method_sig p id ≡ some b
      → Placed mi q k id
      → IsApplied mi q k (record c { instrumented = b })
  unfolding instrumented_method_list_add_and_init
  add_method-IsApplied grow_ok method_sig p id b run placed =
      let (valid, len, last, before) =
        dynarr_add-IsLonger c.instrumented b ok.methods_valid grow_ok _ run in
      record {
        methods_valid = valid;
        lines_valid = ok.lines_valid;
        methods = λ j lt.
            let P = λ (m : InstrumentedMethod). Placed mi q k m.instrument_id in
            elim (ℕ_discrete j c.instrumented.len) [
              | yes at ↦ subst P (sym (ap b.arr at ∙ last)) placed
              | no other ↦
                  subst P (sym (before j (omega (arith, len)))) (ok.methods j (omega (arith, len)))
            ];
        lines = ok.lines;
      }

module _ (q : QueuedInstrList) (t : ClassInfoList) (k : ℕ) (id : ℕ) (kind : Bool) where
  -- What a listed class holds.
  pub class_of-IsApplied :
      (ci : ℕ) (s : Session)
      → Listed t ci
      → Inv q t k id kind s.ctx
      → IsApplied s.ctx.master_instruments q k (class_of s ci)
  class_of-IsApplied ci s (name, at) (h, lt, line) = h.classes name ci at

  pub Inv-class :
      (ci : ℕ) (c : ClassInfo) (s : Session)
      → Inv q t k id kind s.ctx
      → IsApplied s.ctx.master_instruments q k c
      → c.name ≡ (class_of s ci).name
      → Ensures (λ a s'. Inv q t k id kind s'.ctx) (put_class ci c s)
  Inv-class ci c s (h, lt, line) ok same = (IsSound-class q t k s.ctx ci c h ok same, lt, line)

  pub Keeps-remove_line :
      (ci line_number : ℕ) → Listed t ci → Keeps (Inv q t k id kind) (remove_line ci line_number)
  unfolding remove_line
  Keeps-remove_line ci line_number at s i =
      let (c', p, run, ok, same) =
        remove_line-IsApplied s.ctx.master_instruments q k (class_of s ci)
          (class_of-IsApplied ci s at i) line_number in
      rw run (Inv-class ci c' s i ok same)

  pub Keeps-remove_by_sig :
      (ci : ℕ) (method_sig : Bytes)
      → Listed t ci
      → Keeps (Inv q t k id kind) (remove_by_sig ci method_sig)
  unfolding remove_by_sig
  Keeps-remove_by_sig ci method_sig at s i =
      let (c', p, run, ok, same) =
        remove_by_sig-IsApplied s.ctx.master_instruments q k (class_of s ci)
          (class_of-IsApplied ci s at i) method_sig in
      rw run (Inv-class ci c' s i ok same)
