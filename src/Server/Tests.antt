-- ===== src/Server/Tests.antt =====
-- prof-server.c: the theorems on a server without classes, one client and a few messages.
use jauto_profiler_mcp.Prelude.{
  ap, Option, ℕ, ◌+◌, ◌<◌, ◌≡◌, refl, ◌⊎◌, true, false, List, [], ◌∷◌, ◌++◌, none, some,
  if◌then◌else◌, ◌==◌, arith,
}
use jauto_profiler_mcp.ErrLog.{ErrLog, blank}
use jauto_profiler_mcp.EvQueue.{
  EvNode, EvQueue, evq_wait, evq_push, evq_init, put, set_next, return_node,
}
use jauto_profiler_mcp.EvQueue.Fifo.{IsQueue, waiting}
use jauto_profiler_mcp.Requests.{get_status}
use jauto_profiler_mcp.Responses.Short.{uif_respond_resume}
use jauto_profiler_mcp.ServerEv.{PsMsg, ps_shutdown, usr_rq_resume, usr_rq_get_status}
use jauto_profiler_mcp.ServerEv.Send.{Call, send_request}
use jauto_profiler_mcp.HashTab.Put.{empty}
use jauto_profiler_mcp.Queued.{qi_line_enter}
use jauto_profiler_mcp.ClassInfo.{no_method, no_line}
use jauto_profiler_mcp.Instruments.{InstrCtx, Session}
use jauto_profiler_mcp.Instruments.Sound.{IsContext, Listed}
use jauto_profiler_mcp.Instruments.Deferred.{ih_apply_deferred_instrumentations}
use jauto_profiler_mcp.Instruments.Reapply.{ih_reapply_instruments}
use jauto_profiler_mcp.Instruments.Tests.{bare, bare-IsContext, unlisted, willing}
use jauto_profiler_mcp.Server.Classes.{IsHandler, begin, NoMemory, handle_class_loaded-IsDone}
use jauto_profiler_mcp.Server.{
  InstrHandler, Answers, Server, handle_usr_rq_resume, reports_paused, may_start, suspended_count,
  resume_rp_unblocked, resume_rp_nochange,
}
use jauto_profiler_mcp.Server.Dispatch.{handle_class_loaded, dispatch, event_loop}
use jauto_profiler_mcp.Server.Counting.{
  IsNew, IsCounted, Reach, request, start, next, Reach-IsCounted, waiting-IsAlive,
}
use jauto_profiler_mcp.Server.Pausing.{resume-agrees, resume-twice}
use jauto_profiler_mcp.Server.Loop.{event_loop-stops}

abbrev store : ℕ → EvNode PsMsg
store a = record { data_ = ps_shutdown; size = 0; next = none }

abbrev no_message : EvQueue PsMsg
no_message = record { head = none; tail = none; free_list = none; nodes = store }

-- a handler that finds no class
abbrev handler : InstrHandler
handler = record {
  ih_instrument_method = λ c class_name method_sig. (c, 3, 1);
  ih_deinstrument_method = λ c class_name method_sig. (c, 1);
  ih_deinstrument_by_id = λ c id. (c, 1);
  ih_instrument_line = λ c entry_class exit_class entry_line exit_line. (c, 1, 0);
  ih_reapply_instruments = λ c log ci. (c, log);
  ih_apply_deferred_instrumentations = λ c log ci. (c, log);
}

abbrev answers : Answers
answers = record {
  rounds = λ i. record {
    threads = none;
    lists_ok = true;
    results_ok = true;
    realloc_ok = true;
    ref_ok = λ t. true;
  };
  stats = none;
  alloc_ok = true;
  list_ok = true;
  bytecode_mem = record {
    pool_ok = true;
    text_ok = λ i. true;
    name_ok = λ i. true;
    slot_ok = λ i. true;
  };
  class_mem = record { copies_ok = true; methods_ok = true; lines_ok = true };
  class_at = 9;
  key_ok = true;
  tab_ok = true;
}

-- a context without classes and instruments
abbrev no_instruments : InstrCtx
no_instruments = record {
  loaded_classes = record {
    tab = empty 16 (λ key. 0) (λ c n. false);
    store = λ ci. record {
      name = [];
      bytecode = [];
      loader = none;
      methods = [];
      instrumented = record { len = 0; capacity = 1; arr = λ i. no_method };
      lines = record { len = 0; capacity = 1; arr = λ i. no_line };
    };
  };
  queued_instruments = record {
    len = 0;
    capacity = 16;
    arr = λ i. record {
      instrument_id = 0;
      profiler_id = none;
      class_name = [];
      detail = qi_line_enter 0;
    };
  };
  master_instruments = record { tab = empty 16 (λ key. 0) (λ c n. false); next_id = 1 };
}

-- a server that was started paused and holds the threads 4 and 7
abbrev server : EvQueue PsMsg → Server
server q = record {
  world = record { queue = q; rc = λ c. if c == 1 then 1 else 0; globals = λ g. 0 };
  instr_ctx = no_instruments;
  err_log = record { entries = λ i. blank; next = 0; count = 0 };
  thread_pause = record { suspended_threads = 4 ∷ 7 ∷ []; calls = [] };
  paused = true;
  pause_on_exit = true;
  shutting_down = false;
  started_sem = 0;
  exit = none;
  responses = [];
}

abbrev call : Call
call = record {
  mem = record { first_ok = true; second_ok = true; msg_ok = true; global_ok = true };
  fresh = some 5;
  msg_size = 40;
}

call-IsNew : IsNew call no_message
call-IsNew [] [] ok n e = refl
call-IsNew (a ∷ l) f ((e', c), t, cf, nd) n e = cc
call-IsNew [] (a ∷ f) (c, t, (e', cf), nd) n e = cc

-- the server after a request for the status
abbrev asked : Server
asked = record (server no_message) {
  world = (send_request call (server no_message).world 1 get_status).0;
}

asked-Reach : Reach handler asked (server no_message).world.rc
unfolding evq_init
asked-Reach =
    next (server no_message) asked (server no_message).world.rc (server no_message).world.rc
      (start (server no_message) store [] tt refl)
      (request (server no_message) (server no_message).world.rc call 1 get_status call-IsNew)

Reach-IsCounted_example :
    (l f : List ℕ) × IsQueue asked.world.queue l f
    × IsCounted (server no_message).world.rc asked.world l
Reach-IsCounted_example = Reach-IsCounted handler asked-Reach

abbrev taken : EvQueue PsMsg
taken = record {
  head = none;
  tail = none;
  free_list = some 5;
  nodes =
      set_next (put store 5 (record { data_ = usr_rq_get_status 1; size = 40; next = none })) 5
        none;
}

asked_message : evq_wait asked.world.queue ≡ some (taken, usr_rq_get_status 1, 40)
unfolding evq_wait send_request evq_push return_node
asked_message = refl

waiting-IsAlive_example :
    (0 < asked.world.rc 1)
    × ((dispatch handler answers
              (record asked { world = record asked.world { queue = taken } })
              (usr_rq_get_status 1)).0.world.rc
            1
          + 1
        ≡ asked.world.rc 1)
waiting-IsAlive_example =
    waiting-IsAlive handler asked-Reach (usr_rq_get_status 1) 1 refl taken 40 answers asked_message

resume-agrees_example :
    (handle_usr_rq_resume (server no_message) 1).responses
    ≡ []
      ++ (
        1,
        uif_respond_resume (
            if reports_paused (server no_message) then resume_rp_unblocked else resume_rp_nochange),
      )
        ∷ []
resume-agrees_example = resume-agrees (server no_message) 1

resume-twice_example :
    let once = handle_usr_rq_resume (server no_message) 1 in
    let after = handle_usr_rq_resume once 1 in
    (may_start after ≡ true)
    × (after.thread_pause.suspended_threads ≡ [])
    × (reports_paused after ≡ false)
    × (((server no_message).paused ≡ true)
          × (0 < suspended_count (server no_message))
          × (reports_paused once ≡ true)
        ⊎ (((server no_message).paused ≡ false) ⊎ (suspended_count (server no_message) ≡ 0))
          × (may_start once ≡ true)
          × (once.thread_pause.suspended_threads ≡ [])
          × (reports_paused once ≡ false))
resume-twice_example = resume-twice (server no_message) 1 1

-- a request to resume, a shutdown and a message behind it
abbrev three : EvQueue PsMsg
three = record {
  head = some 1;
  tail = some 3;
  free_list = none;
  nodes = λ a.
      if a == 1
      then record { data_ = usr_rq_resume 1; size = 40; next = some 2 }
      else if a == 2
      then record { data_ = ps_shutdown; size = 40; next = some 3 }
      else if a == 3
      then record { data_ = usr_rq_resume 2; size = 40; next = none }
      else store a;
}

three-IsQueue : IsQueue three (1 ∷ 2 ∷ 3 ∷ []) []
three-IsQueue = ((refl, (refl, (refl, refl))), refl, refl, λ s. ground arith)

event_loop-stops_example :
    (ps' : Server) × (m g : List ℕ) × (event_loop handler 2 (λ i. answers) (server three)
      ≡ some ps')
    × IsQueue ps'.world.queue m g
    × (waiting ps'.world.queue m ≡ (usr_rq_resume 2, 40) ∷ [])
event_loop-stops_example =
    event_loop-stops handler ((usr_rq_resume 1, 40) ∷ []) ps_shutdown 40
      ((usr_rq_resume 2, 40) ∷ []) (λ i. answers) (server three) (1 ∷ 2 ∷ 3 ∷ []) [] 2 three-IsQueue
      refl refl refl (omega arith)

abbrev after_call : InstrCtx → ErrLog → Option (Unit {0} × Session) → InstrCtx × ErrLog
after_call ctx log none = (ctx, log)
after_call ctx log (some (u, s)) = (s.ctx, s.err_log)

-- a handler that calls the operations of instrument-handler.c when a class is loaded
abbrev loader : InstrHandler
loader = record handler {
  ih_reapply_instruments =
      λ ctx log ci. after_call ctx log (ih_reapply_instruments willing ci (begin ctx log));
  ih_apply_deferred_instrumentations = λ ctx log ci.
      after_call ctx log (ih_apply_deferred_instrumentations willing ci (begin ctx log));
}

loader-IsHandler : IsHandler loader
loader-IsHandler = record {
  reapplies = λ ctx log ci. (willing, λ i. refl, λ u s e. ap (after_call ctx log) e);
  applies = λ ctx log ci. (willing, λ i. refl, λ u s e. ap (after_call ctx log) e);
}

-- the same server, without classes
abbrev without_classes : Server
without_classes = record (server no_message) { instr_ctx = bare }

-- the class `A`, at the address 9
handle_class_loaded_example :
    IsContext
      (handle_class_loaded loader answers without_classes (65 ∷ []) (1 ∷ 2 ∷ []) none).instr_ctx
    × (Listed
          (handle_class_loaded loader answers without_classes
            (65 ∷ [])
            (1 ∷ 2 ∷ [])
            none).instr_ctx.loaded_classes
          9
        ⊎ NoMemory loader loader-IsHandler answers without_classes
            (65 ∷ [])
            (1 ∷ 2 ∷ [])
            none
            bare-IsContext
            (unlisted 9))
handle_class_loaded_example =
    handle_class_loaded-IsDone loader loader-IsHandler answers without_classes (65 ∷ [])
      (1 ∷ 2 ∷ []) none bare-IsContext (unlisted 9)
