-- ===== src/Server/Dispatch.antt =====
-- prof-server.c: the handlers that change the classes and the instruments, the dispatch of a message, and
-- the event loop.
use jauto_profiler_mcp.Prelude.{
  ℕ, zero, suc, Bool, true, false, not, List, [], Option, none, some, if◌then◌else◌, map,
}
use jauto_profiler_mcp.HashTab.{Bytes}
use jauto_profiler_mcp.EvQueue.{evq_wait}
use jauto_profiler_mcp.Bytecode.{Name, bc_extract_methods}
use jauto_profiler_mcp.ClassInfo.{
  ClassInfoList, CiListAdd, ci_list_add_ok, ci_list_add_duplicate, ci_list_add_err, ci_alloc,
  ci_list_add, ci_list_find_by_name, ci_list_classes, write,
}
use jauto_profiler_mcp.Prelude.Checked.{fault, fail, ok}
use jauto_profiler_mcp.MasterInstruments.{mi_entries}
use jauto_profiler_mcp.Responses.{
  uif_respond_loaded_classes, uif_respond_class_methods, uif_respond_list_instrumented,
  uif_respond_get_async_errors,
}
use jauto_profiler_mcp.Responses.Short.{
  uif_respond_instrument, uif_respond_deinstrument, uif_respond_deinstrument_by_id,
  uif_respond_instrument_line,
}
use jauto_profiler_mcp.ServerEv.{
  PsMsg, class_loaded, usr_rq_loaded_classes, usr_rq_class_methods, usr_rq_instrument_method,
  usr_rq_get_stats, usr_rq_deinstrument_method, usr_rq_resume, ps_shutdown, ps_shutdown_request,
  ps_shutdown_starting, usr_rq_pause_threads, usr_rq_list_instrumented, usr_rq_get_async_errors,
  usr_rq_deinstrument_by_id, usr_rq_instrument_line, usr_rq_get_status, delete_global_ref,
}
use jauto_profiler_mcp.Server.{
  InstrHandler, Answers, Server, answer, handle_usr_rq_pause_threads, handle_usr_rq_resume,
  handle_usr_rq_get_status, handle_usr_rq_get_stats, handle_shutdown_request,
  handle_shutdown_starting,
}

-- the methods in the code of a class, as `bc_extract_methods` fills an empty list
unfoldable pub methods_of : Answers → Bytes → List Bytes
methods_of a bytecode = elim (bc_extract_methods a.bytecode_mem bytecode []) [
  | fault ↦ []
  | fail ↦ []
  | ok (done, methods) ↦ map (λ (m : Name). m.str) methods
]

module _ (ih : InstrHandler) where
  -- `handle_class_loaded` from `ih_apply_deferred_instrumentations` on
  unfoldable pub apply_deferred : Server → ℕ → Server
  apply_deferred ps ci =
      let r = ih.ih_apply_deferred_instrumentations ps.instr_ctx ps.err_log ci in
      record ps { instr_ctx = r.0; err_log = r.1 }

  -- `ih_reapply_instruments` on a class that replaced another
  unfoldable pub reapply : Server → ℕ → Server
  reapply ps ci =
      let r = ih.ih_reapply_instruments ps.instr_ctx ps.err_log ci in
      record ps { instr_ctx = r.0; err_log = r.1 }

  -- `handle_class_loaded` after `ci_list_add`, which lets go of the loader `old` of a replaced class
  unfoldable pub class_added : Server → ℕ → Option ℕ → Option ℕ → CiListAdd → Server
  unfolding delete_global_ref apply_deferred reapply
  class_added ps ci loader old ci_list_add_ok = apply_deferred ps ci
  class_added ps ci loader old ci_list_add_duplicate =
      apply_deferred (reapply (record ps { world = delete_global_ref ps.world old }) ci) ci
  class_added ps ci loader old ci_list_add_err = record ps {
    world = delete_global_ref ps.world loader;
  }

  -- what follows `ci_list_add` in `handle_class_loaded`; `none` is the failed assertion of the list
  unfoldable pub add_class :
      Answers → Server → Option ℕ → ClassInfoList → Option (ClassInfoList × CiListAdd) → Server
  unfolding class_added
  add_class a ps loader before none = ps
  add_class a ps loader before (some (list, result)) =
      let old : Option ℕ = elim (ci_list_find_by_name before (before.store a.class_at).name) [
        | none ↦ none
        | some old ↦ (before.store old).loader
      ] in
      class_added (record ps { instr_ctx = record ps.instr_ctx { loaded_classes = list } })
        a.class_at loader old result

  -- `handle_class_loaded`
  unfoldable pub handle_class_loaded : Answers → Server → Bytes → Bytes → Option ℕ → Server
  unfolding add_class delete_global_ref
  handle_class_loaded a ps name bytecode loader =
      if not a.list_ok
      then record ps { world = delete_global_ref ps.world loader }
      else elim (ci_alloc a.class_mem name bytecode (methods_of a bytecode) loader) [
        | none ↦ record ps { world = delete_global_ref ps.world loader }
        | some ci ↦
            let list = ps.instr_ctx.loaded_classes in
            let before = record list { store = write list.store a.class_at ci } in
            add_class a ps loader before (ci_list_add a.key_ok a.tab_ok before a.class_at)
      ]

  -- `handle_usr_rq_loaded_classes`
  unfoldable pub handle_usr_rq_loaded_classes : Answers → Server → ℕ → Server
  unfolding answer
  handle_usr_rq_loaded_classes a ps client =
      let list = ps.instr_ctx.loaded_classes in
      answer ps client (
        uif_respond_loaded_classes a.alloc_ok
          (map (λ ci. (list.store ci).name) (ci_list_classes list)))

  -- `handle_usr_rq_class_methods`
  unfoldable pub handle_usr_rq_class_methods : Answers → Server → ℕ → Bytes → Server
  unfolding answer
  handle_usr_rq_class_methods a ps client name =
      let list = ps.instr_ctx.loaded_classes in
      answer ps client (
        uif_respond_class_methods a.alloc_ok (elim (ci_list_find_by_name list name) [
          | none ↦ none
          | some ci ↦ some (list.store ci).methods
        ]))

  -- `handle_usr_rq_instrument_method`
  unfoldable pub handle_usr_rq_instrument_method : Server → ℕ → Bytes → Bytes → Server
  unfolding answer
  handle_usr_rq_instrument_method ps client class_name method_sig =
      let (ctx, status, id) = ih.ih_instrument_method ps.instr_ctx class_name method_sig in
      answer (record ps { instr_ctx = ctx }) client (uif_respond_instrument status id)

  -- `handle_usr_rq_deinstrument_method`
  unfoldable pub handle_usr_rq_deinstrument_method : Server → ℕ → Bytes → Bytes → Server
  unfolding answer
  handle_usr_rq_deinstrument_method ps client class_name method_sig =
      let (ctx, status) = ih.ih_deinstrument_method ps.instr_ctx class_name method_sig in
      answer (record ps { instr_ctx = ctx }) client (uif_respond_deinstrument status)

  -- `handle_usr_rq_deinstrument_by_id`
  unfoldable pub handle_usr_rq_deinstrument_by_id : Server → ℕ → ℕ → Server
  unfolding answer
  handle_usr_rq_deinstrument_by_id ps client id =
      let (ctx, status) = ih.ih_deinstrument_by_id ps.instr_ctx id in
      answer (record ps { instr_ctx = ctx }) client (uif_respond_deinstrument_by_id status)

  -- `handle_usr_rq_list_instrumented`
  unfoldable pub handle_usr_rq_list_instrumented : Answers → Server → ℕ → Server
  unfolding answer
  handle_usr_rq_list_instrumented a ps client =
      answer ps client
        (uif_respond_list_instrumented a.alloc_ok (mi_entries ps.instr_ctx.master_instruments))

  -- `handle_usr_rq_get_async_errors`
  unfoldable pub handle_usr_rq_get_async_errors : Answers → Server → ℕ → Server
  unfolding answer
  handle_usr_rq_get_async_errors a ps client =
      answer ps client (uif_respond_get_async_errors a.alloc_ok ps.err_log)

  -- `handle_usr_rq_instrument_line`
  unfoldable pub handle_usr_rq_instrument_line : Server → ℕ → Bytes → Bytes → ℕ → ℕ → Server
  unfolding answer
  handle_usr_rq_instrument_line ps client entry_class exit_class entry_line exit_line =
      let (ctx, status, id) =
        ih.ih_instrument_line ps.instr_ctx entry_class exit_class entry_line exit_line in
      answer (record ps { instr_ctx = ctx }) client (uif_respond_instrument_line status id)

  -- `dispatch`: the server, and whether the loop goes on
  unfoldable pub dispatch : Answers → Server → PsMsg → Server × Bool
  unfolding handle_class_loaded handle_usr_rq_pause_threads handle_usr_rq_resume
      handle_usr_rq_get_status handle_usr_rq_get_stats handle_shutdown_request
      handle_shutdown_starting handle_usr_rq_loaded_classes handle_usr_rq_class_methods
      handle_usr_rq_instrument_method handle_usr_rq_deinstrument_method
      handle_usr_rq_deinstrument_by_id handle_usr_rq_list_instrumented
      handle_usr_rq_get_async_errors handle_usr_rq_instrument_line
  dispatch a ps (class_loaded name bytecode loader) =
      (handle_class_loaded a ps name bytecode loader, true)
  dispatch a ps (usr_rq_loaded_classes client) = (handle_usr_rq_loaded_classes a ps client, true)
  dispatch a ps (usr_rq_class_methods client name) =
      (handle_usr_rq_class_methods a ps client name, true)
  dispatch a ps (usr_rq_instrument_method client class_name method_sig) =
      (handle_usr_rq_instrument_method ps client class_name method_sig, true)
  dispatch a ps (usr_rq_get_stats client) = (handle_usr_rq_get_stats a ps client, true)
  dispatch a ps (usr_rq_deinstrument_method client class_name method_sig) =
      (handle_usr_rq_deinstrument_method ps client class_name method_sig, true)
  dispatch a ps (usr_rq_resume client) = (handle_usr_rq_resume ps client, true)
  dispatch a ps (usr_rq_pause_threads client) = (handle_usr_rq_pause_threads a ps client, true)
  dispatch a ps (usr_rq_list_instrumented client) =
      (handle_usr_rq_list_instrumented a ps client, true)
  dispatch a ps (usr_rq_get_async_errors client) =
      (handle_usr_rq_get_async_errors a ps client, true)
  dispatch a ps (usr_rq_deinstrument_by_id client id) =
      (handle_usr_rq_deinstrument_by_id ps client id, true)
  dispatch a ps (usr_rq_instrument_line client entry_class exit_class entry_line exit_line) =
      (handle_usr_rq_instrument_line ps client entry_class exit_class entry_line exit_line, true)
  dispatch a ps (usr_rq_get_status client) = (handle_usr_rq_get_status ps client, true)
  dispatch a ps ps_shutdown = (ps, false)
  dispatch a ps (ps_shutdown_request code msg) = (handle_shutdown_request ps code, false)
  dispatch a ps ps_shutdown_starting = (handle_shutdown_starting ps, true)

  -- one round of `event_loop`: `none` while `evq_wait` sleeps
  unfoldable pub serve : Answers → Server → Option (Server × Bool)
  unfolding dispatch
  serve a ps = elim (evq_wait ps.world.queue) [
    | none ↦ none
    | some (q, msg, size) ↦
        some (dispatch a (record ps { world = record ps.world { queue = q } }) msg)
  ]

  -- `event_loop` on the messages that wait, with fuel: `none` if it sleeps or the fuel is used up
  unfoldable pub event_loop : ℕ → (ℕ → Answers) → Server → Option Server
  unfolding serve
  event_loop zero a ps = none
  event_loop (suc n) a ps = elim (serve (a n) ps) [
    | none ↦ none
    | some (ps', goes_on) ↦ let rest = event_loop n a ps' in if goes_on then rest else some ps'
  ]
