-- ===== src/Server/Classes.antt =====
-- prof-server.c and instrument-handler.c together: a class that is loaded, with the operations of the
-- instrument handler as the server calls them.
use jauto_profiler_mcp.Prelude.{
  ℕ, ◌≡◌, refl, ap, ◌∙◌, sym, ◌≢◌, ◌⊎◌, inl, inr, Bool, true, false, not, List, [], Option, none,
  some, arith, if◌then◌else◌, subst,
}
use jauto_profiler_mcp.HashTab.{Bytes, hash_tab_lookup}
use jauto_profiler_mcp.DynArr.{dynarr_init}
use jauto_profiler_mcp.ErrLog.{ErrLog}
use jauto_profiler_mcp.ClassInfo
use jauto_profiler_mcp.ClassInfo.{
  ClassInfo, ClassInfoList, CiListAdd, ci_list_add_ok, ci_list_add_duplicate, ci_list_add_err,
  ci_alloc, ci_list_add, ci_list_find_by_name, write,
}
use jauto_profiler_mcp.Instruments.{InstrCtx, Jvm, Session}
use jauto_profiler_mcp.Instruments.Ensures.{Ensures}
use jauto_profiler_mcp.Instruments.Sound.{IsContext, IsApplied, Listed}
use jauto_profiler_mcp.Instruments.Deferred.{ih_apply_deferred_instrumentations}
use jauto_profiler_mcp.Instruments.Reapply.{ih_reapply_instruments}
use jauto_profiler_mcp.Instruments.Loading.{ih_apply_deferred_instrumentations-Drained}
use jauto_profiler_mcp.Instruments.Reapplying.{ih_reapply_instruments-Reapplied}
use jauto_profiler_mcp.Instruments.Loaded.{IsEmptyClass, IsLoaded, ci_list_add-IsLoaded}
use jauto_profiler_mcp.ServerEv.{delete_global_ref}
use jauto_profiler_mcp.Server.{InstrHandler, Answers, Server}
use jauto_profiler_mcp.Server.Dispatch.{
  handle_class_loaded, add_class, class_added, apply_deferred, reapply, methods_of,
}

-- the class is not in the list
abbrev pub Unlisted : ClassInfoList → ℕ → Type 0
Unlisted list ci = (name : Bytes) → hash_tab_lookup list.tab name ≢ some ci

-- the session in which the server calls the handler
abbrev pub begin : InstrCtx → ErrLog → Session
begin ctx log = record { ctx = ctx; err_log = log; turn = 0; calls = [] }

-- The interface does what instrument-handler.c does when a class is loaded, wherever that has a result,
-- with some answers of the JVM for each call. A class can be cleared, and a read of freed memory does no
-- harm.
pub record IsHandler (ih : InstrHandler) : Type 0 where
  pub reapplies :
      (ctx : InstrCtx) (log : ErrLog) (ci : ℕ)
      → (jvm : Jvm) × ((i : ℕ) → jvm.cleared i ≡ true)
        × ((u : Unit {0}) (s : Session)
            → ih_reapply_instruments jvm ci (begin ctx log) ≡ some (u, s)
            → ih.ih_reapply_instruments ctx log ci ≡ (s.ctx, s.err_log))
  pub applies :
      (ctx : InstrCtx) (log : ErrLog) (ci : ℕ)
      → (jvm : Jvm) × ((i : ℕ) → jvm.freed i ≡ true)
        × ((u : Unit {0}) (s : Session)
            → ih_apply_deferred_instrumentations jvm ci (begin ctx log) ≡ some (u, s)
            → ih.ih_apply_deferred_instrumentations ctx log ci ≡ (s.ctx, s.err_log))

-- What holds at the end of a call that has a result holds of what the interface returns.
handled :
    (P : InstrCtx → Type 0) (Q : Unit {0} → Session → Type 0) (r : Option (Unit {0} × Session))
    (out : InstrCtx × ErrLog)
    → Ensures Q r
    → ((u : Unit {0}) (s : Session) → Q u s → P s.ctx)
    → ((u : Unit {0}) (s : Session) → r ≡ some (u, s) → out ≡ (s.ctx, s.err_log))
    → P out.0
handled P Q none out q k is = absurd q
handled P Q (some (u, s)) out q k is = subst (λ x. P x.0) (sym (is u s refl)) (k u s q)

-- A class that is not in the list may be written over.
written-IsContext :
    (ctx : InstrCtx) (ci : ℕ) (c : ClassInfo)
    → IsContext ctx
    → Unlisted ctx.loaded_classes ci
    → IsContext (record ctx {
      loaded_classes = record ctx.loaded_classes { store = write ctx.loaded_classes.store ci c };
    })
written-IsContext ctx ci c ok unlisted =
    let same = λ (name : Bytes) (a : ℕ) (at : hash_tab_lookup ctx.loaded_classes.tab name ≡ some a).
      other a (λ e. unlisted name (at ∙ ap (λ x. some x) e)) in
    record {
      queued = ok.queued;
      tab_valid = (
        ok.tab_valid.0,
        λ name a at. ap (λ x. x.name) (same name a at) ∙ ok.tab_valid.1 name a at,
      );
      sound = record {
        queue_is = refl;
        tab_is = refl;
        names = λ a. refl;
        registry = ok.sound.registry;
        owed = ok.sound.owed;
        classes = λ name a at.
            subst
              (IsApplied ctx.master_instruments ctx.queued_instruments ctx.queued_instruments.len)
              (sym (same name a at)) (ok.sound.classes name a at);
      };
    }
  where
    other : (a : ℕ) → a ≢ ci → write ctx.loaded_classes.store ci c a ≡ ctx.loaded_classes.store a
    other a ne = ground (arith, ne)

-- the context is sound and has the class
abbrev pub IsAdded : InstrCtx → ℕ → Type 0
IsAdded ctx ci = IsContext ctx × Listed ctx.loaded_classes ci

still-Listed : (t t' : ClassInfoList) (ci : ℕ) → t'.tab ≡ t.tab → Listed t ci → Listed t' ci
still-Listed t t' ci e (name, at) = (name, ap (λ x. hash_tab_lookup x name) e ∙ at)

-- an empty class, as `ci_alloc` makes it
ci_alloc-IsEmptyClass :
    (mem : ClassInfo.Memory) (name code : Bytes) (methods : List Bytes) (loader : Option ℕ)
    → (ci_alloc mem name code methods loader ≡ none)
      ⊎ (c : ClassInfo) × (ci_alloc mem name code methods loader ≡ some c) × IsEmptyClass c
unfolding ci_alloc dynarr_init
ci_alloc-IsEmptyClass mem name code methods loader = made mem.copies_ok mem.methods_ok mem.lines_ok
  where
    made :
        (copies ms ls : Bool)
        → let r =
            ci_alloc
              (record { copies_ok = copies; methods_ok = ms; lines_ok = ls })
              name
              code
              methods
              loader in
          (r ≡ none) ⊎ (c : ClassInfo) × (r ≡ some c) × IsEmptyClass c
    made false ms ls = inl refl
    made true false ls = inl refl
    made true true false = inl refl
    made true true true =
        inr (_, refl, ((omega arith, omega arith), (omega arith, omega arith), refl, refl))

one_class : (c d : ClassInfo) → some c ≡ some d → c ≡ d
one_class c d e = cc

module _ (ih : InstrHandler) (handler : IsHandler ih) where
  apply_deferred-IsAdded :
      (ps : Server) (ci : ℕ)
      → IsAdded ps.instr_ctx ci
      → IsAdded (apply_deferred ih ps ci).instr_ctx ci
  unfolding apply_deferred
  apply_deferred-IsAdded ps ci (ok, at) =
      let (jvm, readable, is) = handler.applies ps.instr_ctx ps.err_log ci in
      handled (λ x. IsAdded x ci) _ _ _
        (ih_apply_deferred_instrumentations-Drained jvm ci (begin ps.instr_ctx ps.err_log) ok at
          readable)
        (λ u s q. (q.0, still-Listed ps.instr_ctx.loaded_classes s.ctx.loaded_classes ci q.1 at)) is

  reapply-IsAdded :
      (ps : Server) (ci : ℕ) → IsAdded ps.instr_ctx ci → IsAdded (reapply ih ps ci).instr_ctx ci
  unfolding reapply
  reapply-IsAdded ps ci (ok, at) =
      let (jvm, clears, is) = handler.reapplies ps.instr_ctx ps.err_log ci in
      handled (λ x. IsAdded x ci) _ _ _
        (ih_reapply_instruments-Reapplied jvm ci (begin ps.instr_ctx ps.err_log) ok at clears)
        (λ u s q. (q.0, still-Listed ps.instr_ctx.loaded_classes s.ctx.loaded_classes ci q.1 at)) is

  class_added-IsAdded :
      (ps : Server) (ci : ℕ) (loader old : Option ℕ) (result : CiListAdd)
      → result ≢ ci_list_add_err
      → IsAdded ps.instr_ctx ci
      → IsAdded (class_added ih ps ci loader old result).instr_ctx ci
  unfolding class_added
  class_added-IsAdded ps ci loader old ci_list_add_ok ne h = apply_deferred-IsAdded ps ci h
  class_added-IsAdded ps ci loader old ci_list_add_duplicate ne h =
      let ps' = record ps { world = delete_global_ref ps.world old } in
      apply_deferred-IsAdded (reapply ih ps' ci) ci (reapply-IsAdded ps' ci h)
  class_added-IsAdded ps ci loader old ci_list_add_err ne h = absurd (ne refl)

  module _ (a : Answers) (ps : Server) (name code : Bytes) (loader : Option ℕ)
      (ok : IsContext ps.instr_ctx)
      (unlisted : Unlisted ps.instr_ctx.loaded_classes a.class_at) where
    -- the list of methods, the class, its key or the larger table could not be allocated
    abbrev pub NoMemory : Type 0
    NoMemory =
        (a.list_ok ≡ false)
        ⊎ ((ci_alloc a.class_mem name code (methods_of a code) loader ≡ none)
            ⊎ ((a.key_ok ≡ false) ⊎ (a.tab_ok ≡ false)))

    abbrev IsDone : Server → Type 0
    IsDone ps' =
        IsContext ps'.instr_ctx × (Listed ps'.instr_ctx.loaded_classes a.class_at ⊎ NoMemory)

    module _ (c : ClassInfo) (is_empty : IsEmptyClass c) where
      abbrev before : ClassInfoList
      before = record ps.instr_ctx.loaded_classes {
        store = write ps.instr_ctx.loaded_classes.store a.class_at c;
      }

      abbrev written : InstrCtx
      written = record ps.instr_ctx { loaded_classes = before }

      written_ok : IsContext written
      written_ok = written-IsContext ps.instr_ctx a.class_at c ok unlisted

      is_c : write ps.instr_ctx.loaded_classes.store a.class_at c a.class_at ≡ c
      is_c = ground arith

      abbrev IsIn : ClassInfoList → CiListAdd → Type 0
      IsIn =
          IsLoaded written written_ok a.class_at unlisted (subst IsEmptyClass (sym is_c) is_empty)
            a.key_ok a.tab_ok

      abbrev with_list : ClassInfoList → Server
      with_list after = record ps { instr_ctx = record ps.instr_ctx { loaded_classes = after } }

      ends :
          (after : ClassInfoList) (result : CiListAdd) (old : Option ℕ)
          → IsIn after result
          → IsDone (class_added ih (with_list after) a.class_at loader old result)
      unfolding class_added
      ends after ci_list_add_err old (inl (e, same, why)) = (
        subst (λ x. IsContext (record ps.instr_ctx { loaded_classes = x })) (sym same) written_ok,
        inr (inr (inr why)),
      )
      ends after ci_list_add_err old (inr (sound, at)) = (sound, inl at)
      ends after ci_list_add_ok old (inl (e, same, why)) = cc
      ends after ci_list_add_ok old (inr h) =
          let (sound, at) =
            class_added-IsAdded (with_list after) a.class_at loader old ci_list_add_ok (λ e. cc)
              h in
          (sound, inl at)
      ends after ci_list_add_duplicate old (inl (e, same, why)) = cc
      ends after ci_list_add_duplicate old (inr h) =
          let (sound, at) =
            class_added-IsAdded (with_list after) a.class_at loader old ci_list_add_duplicate
              (λ e. cc) h in
          (sound, inl at)

      added :
          IsDone (add_class ih a ps loader before (ci_list_add a.key_ok a.tab_ok before a.class_at))
      unfolding add_class
      added =
          let (after, result, run, out) =
            ci_list_add-IsLoaded written written_ok a.class_at unlisted
              (subst IsEmptyClass (sym is_c) is_empty) a.key_ok a.tab_ok in
          subst (λ x. IsDone (add_class ih a ps loader before x)) (sym run)
            (ends after result _ out)

    -- `handle_class_loaded` by what was allocated
    abbrev loads : Bool → Option ClassInfo → Server
    loads list_ok made =
        if not list_ok
        then record ps { world = delete_global_ref ps.world loader }
        else elim made as (λ _. Server) [
          | none ↦ record ps { world = delete_global_ref ps.world loader }
          | some ci ↦
              let list = ps.instr_ctx.loaded_classes in
              let b = record list { store = write list.store a.class_at ci } in
              add_class ih a ps loader b (ci_list_add a.key_ok a.tab_ok b a.class_at)
        ]

    loads-IsDone :
        (list_ok : Bool) (made : Option ClassInfo)
        → a.list_ok ≡ list_ok
        → ci_alloc a.class_mem name code (methods_of a code) loader ≡ made
        → IsDone (loads list_ok made)
    loads-IsDone false made e is = (ok, inr (inl e))
    loads-IsDone true none e is = (ok, inr (inr (inl is)))
    loads-IsDone true (some c) e is =
        elim (ci_alloc-IsEmptyClass a.class_mem name code (methods_of a code) loader) [
          | inl gone ↦ absurd (cc (is, gone))
          | inr (c', made, is_empty) ↦
              let same : c' ≡ c = one_class c' c (sym made ∙ is) in
              added c (subst IsEmptyClass same is_empty)
        ]

    -- A class that is loaded leaves the context of the server sound, also where it takes the place of a
    -- class of the same name, and then the list has it unless memory for it ran out. The interface does
    -- what instrument-handler.c does. The address of the class is not that of one in the list, the small
    -- arrays of a class that loses its instruments can be allocated, and the read of an entry that was
    -- freed does no harm.
    pub handle_class_loaded-IsDone :
        IsContext (handle_class_loaded ih a ps name code loader).instr_ctx
        × (Listed (handle_class_loaded ih a ps name code loader).instr_ctx.loaded_classes a.class_at
            ⊎ NoMemory)
    unfolding handle_class_loaded
    handle_class_loaded-IsDone =
        loads-IsDone a.list_ok (ci_alloc a.class_mem name code (methods_of a code) loader) refl refl
