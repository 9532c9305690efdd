-- ===== src/Server/Keeps.antt =====
-- prof-server.c: what handling a message keeps: the queue, and the counts of the clients but one.
use jauto_profiler_mcp.Prelude.{
  ℕ, ◌-◌, ◌≡◌, refl, Option, none, some, arith, ◌==◌, if_holds, ltb, not,
}
use jauto_profiler_mcp.HashTab.{Bytes}
use jauto_profiler_mcp.HashTab.Order.{to_nat}
use jauto_profiler_mcp.ServerEv.{
  World, PsMsg, delete_global_ref, class_loaded, usr_rq_loaded_classes, usr_rq_class_methods,
  usr_rq_instrument_method, usr_rq_get_stats, usr_rq_deinstrument_method, usr_rq_resume,
  ps_shutdown, ps_shutdown_request, ps_shutdown_starting, usr_rq_pause_threads,
  usr_rq_list_instrumented, usr_rq_get_async_errors, usr_rq_deinstrument_by_id,
  usr_rq_instrument_line, usr_rq_get_status,
}
use jauto_profiler_mcp.ServerEv.Counts.{holds}
use jauto_profiler_mcp.Server.{InstrHandler, Answers, Server, suspended_count, handle_usr_rq_resume}
use jauto_profiler_mcp.Server.Dispatch.{
  dispatch, handle_class_loaded, add_class, class_added, apply_deferred, reapply, methods_of,
}
use jauto_profiler_mcp.ClassInfo.{
  ClassInfo, ClassInfoList, CiListAdd, ci_list_add_ok, ci_list_add_duplicate, ci_list_add_err,
  ci_alloc, ci_list_add, write,
}

delete_global_ref-rc :
    (w : World) (loader : Option ℕ) (c : ℕ)
    → ((delete_global_ref w loader).queue ≡ w.queue)
      × ((delete_global_ref w loader).rc c ≡ w.rc c - 0)
unfolding delete_global_ref
delete_global_ref-rc w none c = (refl, omega arith)
delete_global_ref-rc w (some a) c = (refl, omega arith)

handle_usr_rq_resume-rc :
    (ps : Server) (client c : ℕ)
    → ((handle_usr_rq_resume ps client).world.queue ≡ ps.world.queue)
      × ((handle_usr_rq_resume ps client).world.rc c ≡ ps.world.rc c - to_nat (client == c))
unfolding handle_usr_rq_resume
handle_usr_rq_resume-rc ps client c =
    let P = λ (s : Server).
      (s.world.queue ≡ ps.world.queue) × (s.world.rc c ≡ ps.world.rc c - to_nat (client == c)) in
    if_holds P ps.paused _ _ (refl, ground arith)
      (if_holds P (ltb 0 (suspended_count ps)) _ _ (refl, ground arith) (refl, ground arith))

-- the queue and the count of a client are as before
abbrev Keeps : ℕ → Server → Server → Type 0
Keeps c ps ps' = (ps'.world.queue ≡ ps.world.queue) × (ps'.world.rc c ≡ ps.world.rc c - 0)

class_added-Keeps :
    (ih : InstrHandler) (ps : Server) (ci : ℕ) (loader old : Option ℕ) (result : CiListAdd) (c : ℕ)
    → Keeps c ps (class_added ih ps ci loader old result)
unfolding class_added apply_deferred reapply
class_added-Keeps ih ps ci loader old ci_list_add_ok c = (refl, omega arith)
class_added-Keeps ih ps ci loader old ci_list_add_duplicate c = delete_global_ref-rc ps.world old c
class_added-Keeps ih ps ci loader old ci_list_add_err c = delete_global_ref-rc ps.world loader c

add_class-Keeps :
    (ih : InstrHandler) (a : Answers) (ps : Server) (loader : Option ℕ) (before : ClassInfoList)
    → (r : Option (ClassInfoList × CiListAdd)) (c : ℕ)
    → Keeps c ps (add_class ih a ps loader before r)
unfolding add_class
add_class-Keeps ih a ps loader before none c = (refl, omega arith)
add_class-Keeps ih a ps loader before (some (list, result)) c =
    class_added-Keeps ih (record ps { instr_ctx = record ps.instr_ctx { loaded_classes = list } })
      a.class_at loader _ result c

handle_class_loaded-Keeps :
    (ih : InstrHandler) (a : Answers) (ps : Server) (name bytecode : Bytes) (loader : Option ℕ)
    → (c : ℕ) → Keeps c ps (handle_class_loaded ih a ps name bytecode loader)
unfolding handle_class_loaded
handle_class_loaded-Keeps ih a ps name bytecode loader c =
    let released = delete_global_ref-rc ps.world loader c in
    let list = ps.instr_ctx.loaded_classes in
    let added = λ (ci : ClassInfo). record list { store = write list.store a.class_at ci } in
    if_holds (Keeps c ps) (not a.list_ok) _ _ released
      (elim (ci_alloc a.class_mem name bytecode (methods_of a bytecode) loader)
        as (λ o. Keeps c ps (elim o as (λ _. Server) [
          | none ↦ record ps { world = delete_global_ref ps.world loader }
          | some ci ↦
              add_class ih a ps loader (added ci)
                (ci_list_add a.key_ok a.tab_ok (added ci) a.class_at)
        ])) [
          | none ↦ released
          | some ci ↦
              add_class-Keeps ih a ps loader (added ci)
                (ci_list_add a.key_ok a.tab_ok (added ci) a.class_at) c
        ])

module _ (ih : InstrHandler) where
  -- Handling a message releases its client once, and does not touch the queue.
  pub dispatch-rc :
      (a : Answers) (ps : Server) (msg : PsMsg) (c : ℕ)
      → ((dispatch ih a ps msg).0.world.queue ≡ ps.world.queue)
        × ((dispatch ih a ps msg).0.world.rc c ≡ ps.world.rc c - holds c msg)
  unfolding dispatch
  dispatch-rc a ps (usr_rq_loaded_classes client) c = (refl, ground arith)
  dispatch-rc a ps (usr_rq_class_methods client n) c = (refl, ground arith)
  dispatch-rc a ps (usr_rq_instrument_method client n m) c = (refl, ground arith)
  dispatch-rc a ps (usr_rq_get_stats client) c = (refl, ground arith)
  dispatch-rc a ps (usr_rq_deinstrument_method client n m) c = (refl, ground arith)
  dispatch-rc a ps (usr_rq_resume client) c = handle_usr_rq_resume-rc ps client c
  dispatch-rc a ps (usr_rq_pause_threads client) c = (refl, ground arith)
  dispatch-rc a ps (usr_rq_list_instrumented client) c = (refl, ground arith)
  dispatch-rc a ps (usr_rq_get_async_errors client) c = (refl, ground arith)
  dispatch-rc a ps (usr_rq_deinstrument_by_id client id) c = (refl, ground arith)
  dispatch-rc a ps (usr_rq_instrument_line client x y z u) c = (refl, ground arith)
  dispatch-rc a ps (usr_rq_get_status client) c = (refl, ground arith)
  dispatch-rc a ps (class_loaded n b loader) c = handle_class_loaded-Keeps ih a ps n b loader c
  dispatch-rc a ps ps_shutdown c = (refl, omega arith)
  dispatch-rc a ps (ps_shutdown_request code m) c =
      if_holds
        (λ (s : Server). (s.world.queue ≡ ps.world.queue) × (s.world.rc c ≡ ps.world.rc c - 0))
        ps.paused _ _ (refl, omega arith)
        (if_holds
          (λ (s : Server). (s.world.queue ≡ ps.world.queue) × (s.world.rc c ≡ ps.world.rc c - 0))
          ps.pause_on_exit _ _ (refl, omega arith) (refl, omega arith))
  dispatch-rc a ps ps_shutdown_starting c = (refl, omega arith)
