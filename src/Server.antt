-- ===== src/Server.antt =====
-- c-src/main/prof-server.c: the thread of the server, which takes the messages from the queue one by
-- one. The operations of instrument-handler.c are an interface, `InstrHandler`; what the JVM and the
-- allocator answer while a message is handled is the record `Answers`. A response is what
-- uif-response.c makes, `none` where it sends nothing.
pub mod Dispatch
pub mod Keeps
pub mod Counting
pub mod Pausing
pub mod Loop
pub mod Classes
mod Tests
use jauto_profiler_mcp.Prelude.{
  ℕ, zero, suc, ◌+◌, ◌-◌, ◌<◌, Bool, true, false, not, ◌||◌, List, [], ◌∷◌, ◌++◌, Option, none,
  some, ltb, ◌==◌, if◌then◌else◌, map, length,
}
use jauto_profiler_mcp.HashTab.{Bytes}
use jauto_profiler_mcp.EvQueue.{EvQueue, evq_wait}
use jauto_profiler_mcp.ErrLog.{ErrLog}
use jauto_profiler_mcp.Bytecode
use jauto_profiler_mcp.Bytecode.{Name, bc_extract_methods}
use jauto_profiler_mcp.ClassInfo
use jauto_profiler_mcp.ClassInfo.{
  ClassInfoList, CiListAdd, ci_list_add_ok, ci_list_add_duplicate, ci_list_add_err, ci_alloc,
  ci_list_add, ci_list_find_by_name, ci_list_classes, write,
}
use jauto_profiler_mcp.Prelude.Checked.{fault, fail, ok}
use jauto_profiler_mcp.Queued.{QueuedInstrList}
use jauto_profiler_mcp.MasterInstruments.{MasterInstruments, mi_entries}
use jauto_profiler_mcp.Responses.{
  UserMsg, uif_respond_loaded_classes, uif_respond_class_methods, uif_respond_list_instrumented,
  uif_respond_get_async_errors,
}
use jauto_profiler_mcp.Responses.Short.{
  uif_respond_instrument, uif_respond_get_stats, uif_respond_deinstrument, uif_respond_resume,
  uif_respond_pause_threads, uif_respond_deinstrument_by_id, uif_respond_instrument_line,
  uif_respond_get_status,
}
use jauto_profiler_mcp.Instruments.{InstrCtx}
use jauto_profiler_mcp.ThreadPause.{
  Round, ThreadPause, SuspendResult, suspend_ok, suspend_race, suspend_error,
  ps_thread_pause_suspend, ps_thread_pause_resume,
}
use jauto_profiler_mcp.ServerEv.{
  World, PsMsg, class_loaded, usr_rq_loaded_classes, usr_rq_class_methods, usr_rq_instrument_method,
  usr_rq_get_stats, usr_rq_deinstrument_method, usr_rq_resume, ps_shutdown, ps_shutdown_request,
  ps_shutdown_starting, usr_rq_pause_threads, usr_rq_list_instrumented, usr_rq_get_async_errors,
  usr_rq_deinstrument_by_id, usr_rq_instrument_line, usr_rq_get_status, uif_client_release,
  delete_global_ref,
}

-- what the server uses of instrument-handler.c: a context after the operation, and the status
pub record InstrHandler : Type 0 where
  pub ih_instrument_method : InstrCtx → Bytes → Bytes → InstrCtx × ℕ × ℕ
  pub ih_deinstrument_method : InstrCtx → Bytes → Bytes → InstrCtx × ℕ
  pub ih_deinstrument_by_id : InstrCtx → ℕ → InstrCtx × ℕ
  pub ih_instrument_line : InstrCtx → Bytes → Bytes → ℕ → ℕ → InstrCtx × ℕ × ℕ
  pub ih_reapply_instruments : InstrCtx → ErrLog → ℕ → InstrCtx × ErrLog
  pub ih_apply_deferred_instrumentations : InstrCtx → ErrLog → ℕ → InstrCtx × ErrLog

-- what the JVM and the allocator answer while a message is handled; `class_at` is the address of a
-- new class
pub record Answers : Type 0 where
  pub rounds : ℕ → Round
  pub stats : Option (List ℕ)
  pub alloc_ok : Bool
  pub list_ok : Bool
  pub bytecode_mem : Bytecode.Memory
  pub class_mem : ClassInfo.Memory
  pub class_at : ℕ
  pub key_ok : Bool
  pub tab_ok : Bool

-- how the process is ended: `_exit`, or `System.exit`, after the shutdown was unblocked or not
pub data Exit : Type 0 where
  exit_now : (code : ℕ) → Exit
  system_exit : (code : ℕ) (unblocked : Bool) → Exit

-- `struct prof_server`, with the responses that were sent, newest last
pub record Server : Type 0 where
  pub world : World
  pub instr_ctx : InstrCtx
  pub err_log : ErrLog
  pub thread_pause : ThreadPause
  pub paused : Bool
  pub pause_on_exit : Bool
  pub shutting_down : Bool
  pub started_sem : ℕ
  pub exit : Option Exit
  pub responses : List (ℕ × Option UserMsg)

-- enum resume_resp_status and enum pause_threads_resp_status
abbrev pub resume_rp_unblocked : ℕ
resume_rp_unblocked = 0

abbrev pub resume_rp_nochange : ℕ
resume_rp_nochange = 1

abbrev pub pause_status : SuspendResult → ℕ
pause_status suspend_ok = 0
pause_status suspend_race = 3
pause_status suspend_error = 2

-- send a response and release the client, which every handler of a request does last
unfoldable pub answer : Server → ℕ → Option UserMsg → Server
unfolding uif_client_release
answer ps client msg = record ps {
  world = uif_client_release ps.world client;
  responses = ps.responses ++ (client, msg) ∷ [];
}

abbrev pub suspended_count : Server → ℕ
suspended_count ps = length ps.thread_pause.suspended_threads

-- `handle_usr_rq_pause_threads`
unfoldable pub handle_usr_rq_pause_threads : Answers → Server → ℕ → Server
unfolding answer
handle_usr_rq_pause_threads a ps client =
    let r = ps_thread_pause_suspend a.rounds ps.thread_pause in
    answer (record ps { thread_pause = r.0 }) client (uif_respond_pause_threads (pause_status r.1))

-- `resume_vm`: the server, and whether it was paused
unfoldable pub resume_vm : Server → Server × Bool
resume_vm ps = (record ps { paused = false }, ps.paused)

-- `handle_usr_rq_resume`; `ps_thread_pause_resume` never fails
unfoldable pub handle_usr_rq_resume : Server → ℕ → Server
unfolding answer resume_vm
handle_usr_rq_resume ps client =
    let r = resume_vm ps in
    if r.1
    then answer r.0 client (uif_respond_resume resume_rp_unblocked)
    else if ltb 0 (suspended_count r.0)
    then answer (record r.0 { thread_pause = ps_thread_pause_resume ps.thread_pause }) client
        (uif_respond_resume resume_rp_unblocked)
    else answer r.0 client (uif_respond_resume resume_rp_nochange)

-- what `handle_usr_rq_get_status` reports as paused
unfoldable pub reports_paused : Server → Bool
reports_paused ps = ps.paused || ltb 0 (suspended_count ps)

-- `handle_usr_rq_get_status`
unfoldable pub handle_usr_rq_get_status : Server → ℕ → Server
unfolding answer reports_paused
handle_usr_rq_get_status ps client =
    answer ps client (uif_respond_get_status ps.shutting_down (reports_paused ps))

-- `handle_usr_rq_get_stats`: nothing is sent without statistics
unfoldable pub handle_usr_rq_get_stats : Answers → Server → ℕ → Server
unfolding answer
handle_usr_rq_get_stats a ps client =
    answer ps client
      (elim a.stats [ none ↦ none | some buf ↦ uif_respond_get_stats a.alloc_ok buf ])

-- `handle_shutdown_request`; `jvm_prepare_shutdown` posts `started_sem`
unfoldable pub handle_shutdown_request : Server → ℕ → Server
handle_shutdown_request ps exit_code =
    if ps.paused
    then record ps { exit = some (exit_now exit_code) }
    else if ps.pause_on_exit
    then record ps { started_sem = ps.started_sem + 1; exit = some (system_exit exit_code true) }
    else record ps { exit = some (system_exit exit_code false) }

-- `handle_shutdown_starting`
unfoldable pub handle_shutdown_starting : Server → Server
handle_shutdown_starting ps = record ps { shutting_down = true; started_sem = ps.started_sem + 1 }

-- `ps_wait_for_resume` returns when this holds
unfoldable pub may_start : Server → Bool
may_start ps = not ps.paused
