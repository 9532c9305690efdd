-- ===== src/ServerEv/Tests.antt =====
-- prof-server-ev.c: the theorems on an empty queue without spare nodes.
use jauto_profiler_mcp.Prelude.{refl, true, [], ◌∷◌, none, some, if◌then◌else◌, ◌==◌, arith}
use jauto_profiler_mcp.EvQueue.{EvQueue}
use jauto_profiler_mcp.EvQueue.Fifo.{IsQueue}
use jauto_profiler_mcp.Requests.{instrument_method}
use jauto_profiler_mcp.ServerEv.{World, PsMsg, ps_shutdown, class_loaded, strdup, new_global_ref}
use jauto_profiler_mcp.ServerEv.Send.{Call, send_request, ps_send_class_loaded}
use jauto_profiler_mcp.ServerEv.Counts.{Sent, message, send_request-Sent, ps_send_class_loaded-Sent}

abbrev empty : EvQueue PsMsg
empty = record {
  head = none;
  tail = none;
  free_list = none;
  nodes = λ a. record { data_ = ps_shutdown; size = 0; next = none };
}

abbrev world : World
world = record { queue = empty; rc = λ c. if c == 1 then 1 else 0; globals = λ g. 0 }

abbrev call : Call
call = record {
  mem = record { first_ok = true; second_ok = true; msg_ok = true; global_ok = true };
  fresh = some 5;
  msg_size = 40;
}

empty-IsQueue : IsQueue empty [] []
empty-IsQueue = (refl, refl, refl, λ s. omega arith)

send_request_example :
    Sent call world
      (message 1 (instrument_method (65 ∷ []) (66 ∷ 0 ∷ 67 ∷ [])))
      []
      []
      (send_request call world 1 (instrument_method (65 ∷ []) (66 ∷ 0 ∷ 67 ∷ [])))
send_request_example =
    send_request-Sent call world [] [] empty-IsQueue (λ n e. refl) 1
      (instrument_method (65 ∷ []) (66 ∷ 0 ∷ 67 ∷ []))

ps_send_class_loaded_example :
    Sent call world
      (class_loaded (strdup (65 ∷ [])) (1 ∷ 2 ∷ []) (new_global_ref call.mem world (some 3)).1)
      []
      []
      (ps_send_class_loaded call world (65 ∷ []) (1 ∷ 2 ∷ []) (some 3))
ps_send_class_loaded_example =
    ps_send_class_loaded-Sent call world [] [] empty-IsQueue (λ n e. refl) (65 ∷ []) (1 ∷ 2 ∷ [])
      (some 3)
