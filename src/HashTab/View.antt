-- ===== src/HashTab/View.antt =====
-- hash-tab.c: a table as a finite map, apart from the code: what each key stands for.
use jauto_profiler_mcp.Prelude.{
  ◌≡◌, refl, ap, ◌∙◌, sym, ◌≢◌, ◌⊎◌, inl, inr, Option, none, some, if◌then◌else◌, arith, Bool-cases,
  Option-cases,
}
use jauto_profiler_mcp.HashTab.{Bytes, HashTab, keycmp, ent_lookup, hash_tab_lookup}
use jauto_profiler_mcp.HashTab.Probe.{keycmp→eq, keycmp_refl}
use jauto_profiler_mcp.HashTab.Valid.{IsValid, ent_lookup_held, ent_lookup_absent, Held-cases}
use jauto_profiler_mcp.HashTab.Update.{Has}

module _ {V : Type 0} where
  -- the value that a key stands for, NULL or not, if it stands for one
  unfoldable pub view : HashTab V → Bytes → Option (Option V)
  view t k = elim (ent_lookup t k) [ none ↦ none | some i ↦ some (t.tab i).val ]

  -- `hash_tab_lookup` cannot tell a NULL value from a missing key.
  pub lookup-view :
      (t : HashTab V) (k : Bytes)
      → hash_tab_lookup t k ≡ (elim (view t k) [ none ↦ none | some v ↦ v ])
  unfolding hash_tab_lookup view
  lookup-view t k = elim (Option-cases (ent_lookup t k)) [
    | inl e ↦ ground arith
    | inr (i, e) ↦ ground arith
  ]

  module _ (t : HashTab V) (valid : IsValid t) (k : Bytes) where
    pub view_held : (v : Option V) → Has t k v → view t k ≡ some v
    unfolding view
    view_held v (s, at, is) =
        rw (ent_lookup_held t valid.order valid.core valid.reaches k s at, view) (ap some is)

    pub view_absent : ((v : Option V) → Has t k v → ⊥) → view t k ≡ none
    unfolding view
    view_absent absent = rw (
      ent_lookup_absent t valid.order valid.core valid.reaches k
          (λ s at. absent (t.tab s).val (s, at, refl)),
      view,
    )

    pub View-cases : ((v : Option V) × Has t k v) ⊎ ((v : Option V) → Has t k v → ⊥)
    View-cases = elim (Held-cases t valid.order valid.core valid.reaches k) [
      | inl (s, at) ↦ inl ((t.tab s).val, (s, at, refl))
      | inr none_of ↦ inr (λ v (s, at, is). none_of s at)
    ]

  -- Tables with the same entries for a key agree on it.
  pub view_agree :
      (t u : HashTab V) (k : Bytes)
      → IsValid t
      → IsValid u
      → ((v : Option V) → Has t k v → Has u k v)
      → ((v : Option V) → Has u k v → Has t k v)
      → view u k ≡ view t k
  view_agree t u k vt vu to from = elim (View-cases t vt k) [
    | inl (v, h) ↦ view_held u vu k v (to v h) ∙ sym (view_held t vt k v h)
    | inr gone ↦ view_absent u vu k (λ v h. gone v (from v h)) ∙ sym (view_absent t vt k gone)
  ]

  -- the map `f` with the key set to `x`
  abbrev pub updated :
      (Bytes → Option (Option V)) → Bytes → Option (Option V) → Bytes → Option (Option V)
  updated f k x k' = if keycmp k k' then x else f k'

  -- To show that a map is an update, look at the key and at the others.
  pub updated_by :
      (f g : Bytes → Option (Option V)) (k : Bytes) (x : Option (Option V))
      → g k ≡ x
      → ((k' : Bytes) → k' ≢ k → g k' ≡ f k')
      → (k' : Bytes) → g k' ≡ updated f k x k'
  updated_by f g k x here there k' = elim (Bool-cases (keycmp k k')) [
    | inl e ↦ ap g (sym (keycmp→eq k k' e)) ∙ here ∙ sym (rw e refl)
    | inr e ↦ there k' (λ same. cc (e, keycmp_refl k)) ∙ sym (rw e refl)
  ]
