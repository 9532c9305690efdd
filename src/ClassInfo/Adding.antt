-- ===== src/ClassInfo/Adding.antt =====
-- class-info-list.c: adding a class to the list.
use jauto_profiler_mcp.Prelude.{
  ℕ, ◌≡◌, refl, ap, ◌∙◌, sym, ◌≢◌, ◌⊎◌, inl, inr, Bool, false, Option, none, some, arith,
  if◌then◌else◌,
}
use jauto_profiler_mcp.HashTab.{Bytes, HashTab, keycmp, hash_tab_add, hash_tab_lookup}
use jauto_profiler_mcp.HashTab.Valid.{IsValid}
use jauto_profiler_mcp.HashTab.View.{lookup-view}
use jauto_profiler_mcp.HashTab.Probe.{keycmp_refl}
use jauto_profiler_mcp.HashTab.Map.{hash_tab_add-Outcome, Added, Outcome}
use jauto_profiler_mcp.ClassInfo.{
  ClassInfo, ClassInfoList, CiListAdd, ci_list_add_ok, ci_list_add_duplicate, ci_list_add_err,
  ci_steal_instruments, write, ci_list_add, ci_list_find_by_name,
}

-- `new` has the instruments of `old`, which has none left; the rest of `new` is as it was
abbrev pub HasStolen : (ℕ → ClassInfo) → (ℕ → ClassInfo) → ℕ → ℕ → Type 0
HasStolen before after new old =
    (after new ≡ record (before new) {
      instrumented = (before old).instrumented;
      lines = (before old).lines;
    })
    × ((after old).instrumented.len ≡ 0)
    × ((after old).lines.len ≡ 0)
    × ((a : ℕ) → a ≢ new → a ≢ old → after a ≡ before a)

write_self : (f : ℕ → ClassInfo) (a : ℕ) (x : ClassInfo) → write f a x a ≡ x
write_self f a x = ground arith

write_other : (f : ℕ → ClassInfo) (a b : ℕ) (x : ClassInfo) → b ≢ a → write f a x b ≡ f b
write_other f a b x ne = ground arith

stolen :
    (f : ℕ → ClassInfo) (new old : ℕ)
    → old ≢ new
    → let s = ci_steal_instruments (f new) (f old) in
      HasStolen f (write (write f new s.0) old s.1) new old
unfolding ci_steal_instruments
stolen f new old ne =
    let s = ci_steal_instruments (f new) (f old) in
    (
      write_other (write f new s.0) old new s.1 (λ e. ne (sym e)) ∙ write_self f new s.0,
      ap (λ c. c.instrumented.len) (write_self (write f new s.0) old s.1),
      ap (λ c. c.lines.len) (write_self (write f new s.0) old s.1),
      λ a n o. write_other (write f new s.0) old a s.1 o ∙ write_other f new a s.0 n,
    )

module _ (list : ClassInfoList) (ok : IsValid list.tab) (ci : ℕ) (key_ok tab_ok : Bool) where
  abbrev name : Bytes
  name = (list.store ci).name

  -- the list is as it was, or finds the class by its name, and every other name as before
  abbrev pub AddedClass : ClassInfoList → CiListAdd → Type 0
  AddedClass after result =
      (result ≡ ci_list_add_err) × (after ≡ list) × ((key_ok ≡ false) ⊎ (tab_ok ≡ false))
      ⊎ IsValid after.tab
        × (ci_list_find_by_name after name ≡ some ci)
        × ((k : Bytes)
            → keycmp name k ≡ false
            → ci_list_find_by_name after k ≡ ci_list_find_by_name list k)
        × ((result ≡ ci_list_add_ok)
              × (ci_list_find_by_name list name ≡ none)
              × (after.store ≡ list.store)
            ⊎ (result ≡ ci_list_add_duplicate)
              × ((old : ℕ) × (ci_list_find_by_name list name ≡ some old)
                  × HasStolen list.store after.store ci old))

  found :
      (t : HashTab ℕ) (prev : Option ℕ)
      → Added list.tab name (some ci) t prev
      → (hash_tab_lookup t name ≡ some ci)
        × ((k : Bytes) → keycmp name k ≡ false → hash_tab_lookup t k ≡ hash_tab_lookup list.tab k)
  found t prev a = (
    ground (arith, lookup-view t name, a.view_is name, keycmp_refl name),
    λ k other. ground (arith, lookup-view t k, a.view_is k, other, lookup-view list.tab k),
  )

  -- Adding a class fails no assertion. Either an allocation failed and the list is as it was, or the list
  -- finds the class by its name and every other name as before; and if there was a class of that name,
  -- the new one took over its instruments of methods and lines, and keeps its own code, methods and
  -- loader. The class is not in the list under its own name already.
  pub ci_list_add-AddedClass :
      ((old : ℕ) → ci_list_find_by_name list name ≡ some old → old ≢ ci)
      → (after : ClassInfoList) × (result : CiListAdd) × (ci_list_add key_ok tab_ok list ci
          ≡ some (after, result))
        × AddedClass after result
  unfolding ci_list_add ci_list_find_by_name
  ci_list_add-AddedClass new =
      let (t, d, prev, run, out) = hash_tab_add-Outcome list.tab ok name (some ci) key_ok tab_ok in
      from_outcome t d prev run out
    where
      from_outcome :
          (t : HashTab ℕ) (d : Bool) (prev : Option ℕ)
          → hash_tab_add key_ok tab_ok list.tab name (some ci) ≡ some (t, d, prev)
          → Outcome list.tab ok name (some ci) key_ok tab_ok t d prev
          → (after : ClassInfoList) × (result : CiListAdd) × (ci_list_add key_ok tab_ok list ci
              ≡ some (after, result))
            × AddedClass after result
      from_outcome t d none run (inl (failed, same, _, why)) = (
        record list { tab = t },
        ci_list_add_err,
        rw (run, ci_list_add)
            (ap (λ x. some (record list { tab = t }, if x then ci_list_add_ok else ci_list_add_err))
              failed),
        inl (
          refl,
          ap (λ x. record list { tab = x }) same,
          elim why [ inl no_key ↦ inl no_key | inr (no_tab, full) ↦ inr no_tab ],
        ),
      )
      from_outcome t d (some old) run (inl (failed, same, is, why)) = cc
      from_outcome t d none run (inr (done, a)) =
          let (here, there) = found t none a in
          (
            record list { tab = t },
            ci_list_add_ok,
            rw (run, ci_list_add)
                (ap
                  (λ x.
                    some (record list { tab = t }, if x then ci_list_add_ok else ci_list_add_err))
                  done),
            inr (a.valid, here, there, inl (refl, sym a.prev_is, refl)),
          )
      from_outcome t d (some old) run (inr (done, a)) =
          let (here, there) = found t (some old) a in
          let s = ci_steal_instruments (list.store ci) (list.store old) in
          let other : old ≢ ci = new old (sym a.prev_is) in
          (
            record { tab = t; store = write (write list.store ci s.0) old s.1 },
            ci_list_add_duplicate,
            rw (run, ci_list_add) refl,
            inr (
              a.valid,
              here,
              there,
              inr (refl, (old, sym a.prev_is, stolen list.store ci old other)),
            ),
          )
