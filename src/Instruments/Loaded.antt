-- ===== src/Instruments/Loaded.antt =====
-- class-info-list.c and instrument-handler.c: adding a class to the list keeps the context sound.
use jauto_profiler_mcp.Prelude.{
  ℕ, ◌≡◌, refl, ap, ◌∙◌, sym, ◌≢◌, ◌⊎◌, inl, inr, Bool, false, some, arith, subst, Bool-cases,
}
use jauto_profiler_mcp.HashTab.{Bytes, keycmp, hash_tab_lookup}
use jauto_profiler_mcp.HashTab.Valid
use jauto_profiler_mcp.HashTab.Probe.{keycmp→eq, keycmp_refl}
use jauto_profiler_mcp.DynArr.Items.{IsValid}
use jauto_profiler_mcp.ClassInfo.{
  ClassInfo, ClassInfoList, CiListAdd, ci_list_add_ok, ci_list_add_duplicate, ci_list_add_err,
  ci_list_add, ci_list_find_by_name,
}
use jauto_profiler_mcp.ClassInfo.Adding.{AddedClass, ci_list_add-AddedClass}
use jauto_profiler_mcp.MasterInstruments.{MasterInstruments}
use jauto_profiler_mcp.Queued.{QueuedInstrList}
use jauto_profiler_mcp.Instruments.{InstrCtx}
use jauto_profiler_mcp.Instruments.Sound.{IsContext, IsApplied, IsList, Listed}

-- a class without instruments, as `ci_alloc` makes it
abbrev pub IsEmptyClass : ClassInfo → Type 0
IsEmptyClass c =
    IsValid c.instrumented × IsValid c.lines × (c.instrumented.len ≡ 0) × (c.lines.len ≡ 0)

empty-IsApplied :
    (mi : MasterInstruments) (q : QueuedInstrList) (k : ℕ) (c : ClassInfo)
    → IsEmptyClass c
    → IsApplied mi q k c
empty-IsApplied mi q k c (vm, vl, em, el) = record {
  methods_valid = vm;
  lines_valid = vl;
  methods = λ j lt. absurd (omega (arith, em, lt));
  lines = λ j lt. absurd (omega (arith, el, lt));
}

one : (a b : ℕ) → some a ≡ some b → a ≡ b
one a b e = cc

module _ (ctx : InstrCtx) (ok : IsContext ctx) (ci : ℕ)
    (unlisted : (name : Bytes) → hash_tab_lookup ctx.loaded_classes.tab name ≢ some ci)
    (is_empty : IsEmptyClass (ctx.loaded_classes.store ci)) (key_ok tab_ok : Bool) where
  abbrev list : ClassInfoList
  list = ctx.loaded_classes

  abbrev name : Bytes
  name = (list.store ci).name

  abbrev Fits : ClassInfo → Type 0
  Fits = IsApplied ctx.master_instruments ctx.queued_instruments ctx.queued_instruments.len

  name_differs : (n : Bytes) → name ≡ n → keycmp name n ≢ false
  name_differs n e other = cc (keycmp_refl name, ap (λ x. keycmp name x) e)

  -- A longer list keeps the context sound, where every class that it finds fits.
  with_list :
      (after : ClassInfoList)
      → IsList after
      → ((n : Bytes) (a : ℕ) → hash_tab_lookup after.tab n ≡ some a → Fits (after.store a))
      → IsContext (record ctx { loaded_classes = after })
  with_list after good fits = record {
    queued = ok.queued;
    tab_valid = good;
    sound = record {
      queue_is = refl;
      tab_is = refl;
      names = λ a. refl;
      registry = ok.sound.registry;
      owed = ok.sound.owed;
      classes = fits;
    };
  }

  module _ (after : ClassInfoList) (valid : Valid.IsValid after.tab)
      (here : hash_tab_lookup after.tab name ≡ some ci)
      (there : (k : Bytes)
        → keycmp name k ≡ false
        → hash_tab_lookup after.tab k ≡ hash_tab_lookup list.tab k)
      (P : ClassInfo → Bytes → Type 0) (new : P (after.store ci) name)
      (others : (n : Bytes) (a : ℕ)
        → keycmp name n ≡ false
        → hash_tab_lookup list.tab n ≡ some a
        → P (after.store a) n) where
    -- What holds of the new class and of the others holds of every class that is found.
    every : (n : Bytes) (a : ℕ) → hash_tab_lookup after.tab n ≡ some a → P (after.store a) n
    every n a at = elim (Bool-cases (keycmp name n)) [
      | inl same ↦
          let is_n : name ≡ n = keycmp→eq name n same in
          let is_a : ci ≡ a =
            one ci a (sym here ∙ ap (λ x. hash_tab_lookup after.tab x) is_n ∙ at) in
          subst (P (after.store a)) is_n (subst (λ x. P (after.store x) name) is_a new)
      | inr other ↦ others n a other (sym (there n other) ∙ at)
    ]

  -- The class that takes over the instruments of another fits where the other did.
  stolen-Fits :
      (new old c : ClassInfo)
      → Fits old
      → c ≡ record new { instrumented = old.instrumented; lines = old.lines }
      → Fits c
  stolen-Fits new old c h e = subst Fits (sym e) (record {
    methods_valid = h.methods_valid;
    lines_valid = h.lines_valid;
    methods = h.methods;
    lines = h.lines;
  })

  abbrev pub IsLoaded : ClassInfoList → CiListAdd → Type 0
  IsLoaded after result =
      (result ≡ ci_list_add_err) × (after ≡ list) × ((key_ok ≡ false) ⊎ (tab_ok ≡ false))
      ⊎ IsContext (record ctx { loaded_classes = after }) × Listed after ci

  fits_ok :
      (after : ClassInfoList)
      → AddedClass list ok.tab_valid.0 ci key_ok tab_ok after ci_list_add_ok
      → IsLoaded after ci_list_add_ok
  unfolding ci_list_find_by_name
  fits_ok after (inl (bad, same, why)) = cc
  fits_ok after (inr (valid, here, there, inr (bad, rest))) = cc
  fits_ok after (inr (valid, here, there, inl (_, fresh, same))) =
      let names =
        every after valid here there (λ c n. c.name ≡ n) (ap (λ f. (f ci).name) same)
          (λ n a other at. ap (λ f. (f a).name) same ∙ ok.tab_valid.1 n a at) in
      let fits =
        every after valid here there (λ c n. Fits c)
          (subst (λ f. Fits (f ci)) (sym same) (empty-IsApplied _ _ _ _ is_empty))
          (λ n a other at. subst (λ f. Fits (f a)) (sym same) (ok.sound.classes n a at)) in
      inr (with_list after (valid, names) fits, (name, here))

  fits_duplicate :
      (after : ClassInfoList)
      → AddedClass list ok.tab_valid.0 ci key_ok tab_ok after ci_list_add_duplicate
      → IsLoaded after ci_list_add_duplicate
  unfolding ci_list_find_by_name
  fits_duplicate after (inl (bad, same, why)) = cc
  fits_duplicate after (inr (valid, here, there, inl (bad, _, _))) = cc
  fits_duplicate after (inr (valid, here, there, inr (_, (old, at_old, (new_is, _, _, rest))))) =
      let kept =
        λ (n : Bytes) (a : ℕ) (other : keycmp name n ≡ false)
            (at : hash_tab_lookup list.tab n ≡ some a).
          rest a (λ e. unlisted n (at ∙ ap (λ x. some x) e))
            (λ e.
              name_differs n
                (sym (ok.tab_valid.1 name old at_old)
                  ∙ ap (λ x. (list.store x).name) (sym e)
                  ∙ ok.tab_valid.1 n a at)
                other) in
      let names =
        every after valid here there (λ c n. c.name ≡ n) (ap (λ c. c.name) new_is)
          (λ n a other at. ap (λ c. c.name) (kept n a other at) ∙ ok.tab_valid.1 n a at) in
      let fits =
        every after valid here there (λ c n. Fits c)
          (stolen-Fits (list.store ci) (list.store old) (after.store ci)
            (ok.sound.classes name old at_old) new_is)
          (λ n a other at. subst Fits (sym (kept n a other at)) (ok.sound.classes n a at)) in
      inr (with_list after (valid, names) fits, (name, here))

  -- Adding a class whose arrays are empty to a sound context fails no assertion. An allocation may fail
  -- and the list of classes is as it was; else the context with the new list is sound and the list has
  -- the class, also where it takes over the instruments of a class of the same name. The class is not
  -- in the list before.
  pub ci_list_add-IsLoaded :
      (after : ClassInfoList) × (result : CiListAdd) × (ci_list_add key_ok tab_ok ctx.loaded_classes
          ci
        ≡ some (after, result))
      × IsLoaded after result
  unfolding ci_list_find_by_name
  ci_list_add-IsLoaded =
      let (after, result, run, out) =
        ci_list_add-AddedClass list ok.tab_valid.0 ci key_ok tab_ok
          (λ old at same. unlisted name (at ∙ ap (λ x. some x) same)) in
      (after, result, run, ends after result out)
    where
      ends :
          (after : ClassInfoList) (result : CiListAdd)
          → AddedClass list ok.tab_valid.0 ci key_ok tab_ok after result
          → IsLoaded after result
      ends after ci_list_add_ok out = fits_ok after out
      ends after ci_list_add_duplicate out = fits_duplicate after out
      ends after ci_list_add_err (inl same) = inl same
      ends after ci_list_add_err (inr (v, h, t, inl (bad, _, _))) = cc
      ends after ci_list_add_err (inr (v, h, t, inr (bad, rest))) = cc
