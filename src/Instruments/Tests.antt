-- ===== src/Instruments/Tests.antt =====
-- instrument-handler.c: the theorems on a context with one class, with an instrument that is put in and
-- taken out again.
use jauto_profiler_mcp.Prelude.{
  ◌<◌, subst, ℕ, ◌*◌, ◌≡◌, ◌≢◌, refl, ap, ◌∙◌, ◌⊎◌, inl, inr, Bool, true, false, [], ◌∷◌, Option,
  none, some, leb, arith,
}
use jauto_profiler_mcp.HashTab.{Bytes, hash_tab_lookup}
use jauto_profiler_mcp.HashTab.Put.{empty, empty-IsValid, view-empty}
use jauto_profiler_mcp.HashTab.View.{lookup-view}
use jauto_profiler_mcp.ErrLog
use jauto_profiler_mcp.ClassInfo.{ClassInfo, write, no_method, no_line}
use jauto_profiler_mcp.MasterInstruments
use jauto_profiler_mcp.MasterInstruments.{
  MiEntry, MasterInstruments, mi_method, mi_find, add_entry, mi_id_hash, id_key,
}
use jauto_profiler_mcp.MasterInstruments.Registry.{IsRegistry, add_entry-Registered, found_below}
use jauto_profiler_mcp.Queued.{qi_line_enter, qi_method}
use jauto_profiler_mcp.Instruments.{InstrCtx, Jvm, Session, class_of}
use jauto_profiler_mcp.Instruments.Ensures.{Ensures}
use jauto_profiler_mcp.Instruments.Sound.{
  IsContext, IsContext-from, IsSound, IsSound-class, IsApplied, Listed,
}
use jauto_profiler_mcp.DynArr.Items.{items}
use jauto_profiler_mcp.DynArr.Without.{without}
use jauto_profiler_mcp.Instruments.Deferred.{ih_apply_deferred_instrumentations}
use jauto_profiler_mcp.Instruments.Remove.{ih_deinstrument_by_id}
use jauto_profiler_mcp.Instruments.Handle.{ih_instrument_method, ih_instrument_line}
use jauto_profiler_mcp.Instruments.Reapply.{ih_reapply_instruments}
use jauto_profiler_mcp.Instruments.Adding.{ih_instrument_method-IsContext}
use jauto_profiler_mcp.Instruments.Lines.{ih_instrument_line-IsContext}
use jauto_profiler_mcp.Instruments.Removing.{IsGone, ih_deinstrument_by_id-IsGone}
use jauto_profiler_mcp.Instruments.Settled.{Settled}
use jauto_profiler_mcp.Instruments.Loading.{is_for, ih_apply_deferred_instrumentations-Drained}
use jauto_profiler_mcp.Instruments.Reapplying.{ih_reapply_instruments-Reapplied}
use jauto_profiler_mcp.Instruments.Loaded.{ci_list_add-IsLoaded}

-- a load of three quarters
abbrev over_3_4 : ℕ → ℕ → Bool
over_3_4 c n = leb (3 * n) (4 * c)

abbrev hash : Bytes → ℕ
hash key = 0

abbrev class_a : ClassInfo
class_a = record {
  name = 65 ∷ [];
  bytecode = 1 ∷ 2 ∷ [];
  loader = none;
  methods = (102 ∷ []) ∷ [];
  instrumented = record { len = 0; capacity = 1; arr = λ i. no_method };
  lines = record { len = 0; capacity = 1; arr = λ i. no_line };
}

abbrev plenty : MasterInstruments.Memory
plenty = record { entry_ok = true; key_ok = true; tab_ok = true }

abbrev waiting : MiEntry
waiting = mi_method (65 ∷ []) (102 ∷ []) true

-- a context without classes and instruments
abbrev pub bare : InstrCtx
bare = record {
  loaded_classes = record { tab = empty 16 hash over_3_4; store = λ a. class_a };
  queued_instruments = record {
    len = 0;
    capacity = 16;
    arr = λ i. record {
      class_name = [];
      instrument_id = 0;
      profiler_id = none;
      detail = qi_line_enter 0;
    };
  };
  master_instruments = record { tab = empty 16 mi_id_hash over_3_4; next_id = 1 };
}

no_class : (name : Bytes) → hash_tab_lookup bare.loaded_classes.tab name ≡ none
no_class name =
    lookup-view bare.loaded_classes.tab name
    ∙ ap (λ x. elim x as (λ _. Option ℕ) [ none ↦ none | some v ↦ v ])
        (view-empty {V = ℕ} 16 hash over_3_4 (omega arith) (λ c n e. ground arith) name)

pub bare-IsContext : IsContext bare
bare-IsContext = record {
  queued = record {
    valid = (omega arith, omega arith);
    apart = λ i j lt. absurd (omega (arith, lt));
  };
  tab_valid = (
    empty-IsValid 16 hash over_3_4 (omega arith) (λ c n e. ground arith),
    λ name a at. absurd (cc (no_class name, at)),
  );
  sound = record {
    queue_is = refl;
    tab_is = refl;
    names = λ a. refl;
    registry = record {
      valid = empty-IsValid 16 mi_id_hash over_3_4 (omega arith) (λ c n e. ground arith);
      pos = omega arith;
      in_range = omega arith;
      free = λ id le lt.
          view-empty 16 mi_id_hash over_3_4 (omega arith) (λ c n e. ground arith) (id_key id);
    };
    owed = λ j lt. absurd (omega (arith, lt));
    classes = λ name a at. absurd (cc (no_class name, at));
  };
}

pub unlisted : (ci : ℕ) (name : Bytes) → hash_tab_lookup bare.loaded_classes.tab name ≢ some ci
unlisted ci name at = cc (no_class name, at)

-- the context with the class at the address 8
abbrev loaded : InstrCtx
loaded = record bare {
  loaded_classes =
      (ci_list_add-IsLoaded bare bare-IsContext 8 (unlisted 8)
        ((omega arith, omega arith), (omega arith, omega arith), refl, refl) true true).0;
}

loaded-IsContext : IsContext loaded × Listed loaded.loaded_classes 8
loaded-IsContext =
    elim (ci_list_add-IsLoaded bare bare-IsContext 8 (unlisted 8)
      ((omega arith, omega arith), (omega arith, omega arith), refl, refl) true true).3 [
        | inl (failed, same, why) ↦ absurd (elim why [ inl e ↦ cc | inr e ↦ cc ])
        | inr both ↦ both
      ]

-- a JVM that grants everything
abbrev pub willing : Jvm
willing = record {
  malloc = λ i. true;
  create = λ i. some 5;
  remove = λ i. true;
  bytecode = λ i params. some (3 ∷ []);
  retransform = λ i. true;
  now = λ i. 0;
  message = λ i. some [];
  cleared = λ i. true;
  freed = λ i. true;
}

abbrev first : Session
first = record {
  ctx = loaded;
  err_log = ErrLog.init (λ i. record { timestamp = 0; msg = none });
  turn = 0;
  calls = [];
}

-- the session at the end of a call that returns
module _ {A : Type 0} (Q : A → Session → Type 0) where
  reached : (r : Option (A × Session)) → Ensures Q r → Session
  reached none q = absurd q
  reached (some (a, s)) q = s

  reached_lem :
      (P : Session → Type 0)
      → ((a : A) (s : Session) → Q a s → P s)
      → (r : Option (A × Session)) (q : Ensures Q r) → P (reached r q)
  unfolding reached
  reached_lem P k none q = absurd q
  reached_lem P k (some (a, s)) q = k a s q

-- the method `f` of the class
ih_instrument_method-IsContext_example :
    Ensures
      (λ (a : ℕ × ℕ) s'. IsContext s'.ctx)
      (ih_instrument_method willing (65 ∷ []) (102 ∷ []) first)
ih_instrument_method-IsContext_example =
    ih_instrument_method-IsContext willing (65 ∷ []) (102 ∷ []) first loaded-IsContext.0
      (omega arith)

ih_instrument_line-IsContext_example :
    Ensures
      (λ (r : ℕ × ℕ) s'. IsContext s'.ctx)
      (ih_instrument_line willing (65 ∷ []) (66 ∷ []) 3 7 first)
ih_instrument_line-IsContext_example =
    ih_instrument_line-IsContext willing (65 ∷ []) (66 ∷ []) 3 7 first loaded-IsContext.0
      (omega arith)

-- the session with the instrument of a line whose class at the end is not loaded
abbrev with_line : Session
with_line =
    reached (λ (r : ℕ × ℕ) s'. IsContext s'.ctx)
      (ih_instrument_line willing (65 ∷ []) (66 ∷ []) 3 7 first)
      (ih_instrument_line-IsContext willing (65 ∷ []) (66 ∷ []) 3 7 first loaded-IsContext.0
        (omega arith))

with_line-IsContext : IsContext with_line.ctx
with_line-IsContext =
    reached_lem (λ (r : ℕ × ℕ) s'. IsContext s'.ctx) (λ s. IsContext s.ctx) (λ a s ok. ok) _ _

ih_deinstrument_by_id-IsGone_example :
    Ensures (λ status s'. IsGone 1 status s'.ctx) (ih_deinstrument_by_id willing 1 with_line)
ih_deinstrument_by_id-IsGone_example =
    ih_deinstrument_by_id-IsGone willing with_line with_line-IsContext 1 (omega arith)

-- a registry with the method `f` of the class `A`, which waits, under the id 1
abbrev one_method : MasterInstruments
one_method =
    (add_entry-Registered plenty bare.master_instruments waiting bare-IsContext.sound.registry
      (omega arith)).0

one_method-IsRegistry : IsRegistry one_method × (mi_find one_method 1 ≡ some waiting)
one_method-IsRegistry =
    elim (add_entry-Registered plenty bare.master_instruments waiting bare-IsContext.sound.registry
      (omega arith)).3 [
        | inl (zero_id, same, why) ↦ absurd (no_failure why)
        | inr (next_id, registry, before, after, others) ↦
            (registry, subst (λ id. mi_find one_method id ≡ some waiting) next_id after)
      ]
  where
    no_failure : (true ≡ false) ⊎ (true ≡ false) ⊎ (true ≡ false) → ⊥
    no_failure (inl e) = cc
    no_failure (inr (inl e)) = cc
    no_failure (inr (inr e)) = cc

-- the context in which the method waits for the class
abbrev queued : InstrCtx
queued = record bare {
  master_instruments = one_method;
  queued_instruments = record bare.queued_instruments {
    len = 1;
    arr = λ i. record {
      class_name = 65 ∷ [];
      instrument_id = 1;
      profiler_id = some 5;
      detail = qi_method (102 ∷ []);
    };
  };
}

queued-IsContext : IsContext queued
queued-IsContext = record {
  queued = record {
    valid = (omega arith, omega arith);
    apart = λ i j li lj ne. absurd (ne (omega (arith, li, lj)));
  };
  tab_valid = bare-IsContext.tab_valid;
  sound = record {
    queue_is = refl;
    tab_is = refl;
    names = λ a. refl;
    registry = one_method-IsRegistry.0;
    owed = λ j lt ne. (
      waiting,
      5,
      one_method-IsRegistry.1,
      refl,
      refl,
      found_below one_method 1 waiting one_method-IsRegistry.0 (omega arith)
          one_method-IsRegistry.1,
    );
    classes = λ name a at. absurd (cc (no_class name, at));
  };
}

abbrev with_class : InstrCtx
with_class = record queued {
  loaded_classes =
      (ci_list_add-IsLoaded queued queued-IsContext 8 (unlisted 8)
        ((omega arith, omega arith), (omega arith, omega arith), refl, refl) true true).0;
}

with_class-IsContext : IsContext with_class × Listed with_class.loaded_classes 8
with_class-IsContext =
    elim (ci_list_add-IsLoaded queued queued-IsContext 8 (unlisted 8)
      ((omega arith, omega arith), (omega arith, omega arith), refl, refl) true true).3 [
        | inl (failed, same, why) ↦ absurd (elim why [ inl e ↦ cc | inr e ↦ cc ])
        | inr both ↦ both
      ]

abbrev waits_for_class : Session
waits_for_class = record first { ctx = with_class }

ih_apply_deferred_instrumentations-Drained_example :
    Ensures
      (λ a s'.
        IsContext s'.ctx
        × (s'.ctx.loaded_classes.tab ≡ with_class.loaded_classes.tab)
        × (items s'.ctx.queued_instruments
            ≡ without
                (is_for (class_of waits_for_class 8).name)
                (items with_class.queued_instruments))
        × ((j : ℕ)
            → j < with_class.queued_instruments.len
            → is_for (class_of waits_for_class 8).name (with_class.queued_instruments.arr j) ≡ true
            → Settled (with_class.queued_instruments.arr j) s'.ctx.master_instruments))
      (ih_apply_deferred_instrumentations willing 8 waits_for_class)
ih_apply_deferred_instrumentations-Drained_example =
    ih_apply_deferred_instrumentations-Drained willing 8 waits_for_class with_class-IsContext.0
      with_class-IsContext.1 (λ i. refl)

-- a JVM that does not transform classes
abbrev refusing : Jvm
refusing = record willing { retransform = λ i. false }

-- the class with the method `f` as an instrument, in a context whose counter has passed it
abbrev class_f : ClassInfo
class_f = record (loaded.loaded_classes.store 8) {
  lines = class_a.lines;
  instrumented = record {
    len = 1;
    capacity = 1;
    arr = λ i. record { method_sig = 102 ∷ []; profiler_id = 5; instrument_id = 1 };
  };
}

abbrev counted : InstrCtx
counted = record loaded { master_instruments = record bare.master_instruments { next_id = 2 } }

abbrev used : InstrCtx
used = record counted {
  loaded_classes = record loaded.loaded_classes {
    store = write loaded.loaded_classes.store 8 class_f;
  };
}

counted_applied :
    (c : ClassInfo)
    → IsApplied bare.master_instruments bare.queued_instruments 0 c
    → IsApplied counted.master_instruments bare.queued_instruments 0 c
unfolding mi_find
counted_applied c h = record {
  methods_valid = h.methods_valid;
  lines_valid = h.lines_valid;
  methods = λ j lt. let (below, free) = h.methods j lt in (omega (arith, below), free);
  lines = λ j lt. let ((below, free), line) = h.lines j lt in ((omega (arith, below), free), line);
}

counted-IsSound : IsSound bare.queued_instruments loaded.loaded_classes 0 counted
counted-IsSound = record {
  queue_is = refl;
  tab_is = refl;
  names = λ a. refl;
  registry = record {
    valid = bare-IsContext.sound.registry.valid;
    pos = omega arith;
    in_range = omega arith;
    free = λ id le lt. bare-IsContext.sound.registry.free id (omega (arith, le)) lt;
  };
  owed = λ j lt. absurd (omega (arith, lt));
  classes = λ name a at. counted_applied _ (loaded-IsContext.0.sound.classes name a at);
}

used-IsContext : IsContext used
used-IsContext =
    IsContext-from bare.queued_instruments loaded.loaded_classes used bare-IsContext.queued
      loaded-IsContext.0.tab_valid
      (IsSound-class bare.queued_instruments loaded.loaded_classes 0 counted 8 class_f
        counted-IsSound
        (record {
          methods_valid = (omega arith, omega arith);
          lines_valid = (omega arith, omega arith);
          methods = λ j lt. (omega arith, λ i li. absurd (omega (arith, li)));
          lines = λ j lt. absurd (omega (arith, lt));
        })
        refl)

abbrev instrumented : Session
instrumented = record first { ctx = used }

ih_reapply_instruments-Reapplied_example :
    Ensures
      (λ a s'.
        IsContext s'.ctx
        × (s'.ctx.loaded_classes.tab ≡ used.loaded_classes.tab)
        × ((s'.ctx ≡ used)
            ⊎ ((class_of s' 8).instrumented.len ≡ 0) × ((class_of s' 8).lines.len ≡ 0)))
      (ih_reapply_instruments refusing 8 instrumented)
ih_reapply_instruments-Reapplied_example =
    ih_reapply_instruments-Reapplied refusing 8 instrumented used-IsContext loaded-IsContext.1
      (λ i. refl)
