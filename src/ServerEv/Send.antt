-- ===== src/ServerEv/Send.antt =====
-- c-src/main/prof-server-ev.c, `ps_send_ev` of prof-server.c, and the calls of ps-uif-handler.c: the
-- functions that put a message into the queue. A value is the world and whether 0 was returned.
use jauto_profiler_mcp.Prelude.{
  ℕ, ◌-◌, Bool, true, false, [], Option, none, some, if◌then◌else◌, take,
}
use jauto_profiler_mcp.HashTab.{Bytes}
use jauto_profiler_mcp.EvQueue.{evq_push}
use jauto_profiler_mcp.Requests.{
  Request, loaded_classes, get_stats, shutdown_request, resume, pause_threads, list_instrumented,
  get_async_errors, get_status, class_methods, instrument_method, deinstrument_method,
  deinstrument_by_id, instrument_line,
}
use jauto_profiler_mcp.ServerEv.{
  Memory, World, PsMsg, usr_rq_loaded_classes, usr_rq_get_stats, usr_rq_resume, ps_shutdown_request,
  usr_rq_pause_threads, usr_rq_list_instrumented, usr_rq_get_async_errors,
  usr_rq_deinstrument_by_id, usr_rq_get_status, uif_client_acquire, uif_client_release, strdup,
  ps_send_class_ev_alloc, ps_usr_rq_class_methods_alloc, ps_usr_rq_instrument_method_alloc,
  ps_usr_rq_deinstrument_method_alloc, ps_usr_rq_instrument_line_alloc, ps_send_class_ev_dealloc,
  loader_of, psm_shutdown_request_msg_max, usr_shutdown_msg,
}

-- what `malloc` returns for the message, and for a node of the queue; the size of a message
pub record Call : Type 0 where
  pub mem : Memory
  pub fresh : Option ℕ
  pub msg_size : ℕ

-- `ps_send_ev`
unfoldable pub ps_send_ev : Call → World → PsMsg → World × Bool
ps_send_ev k w msg =
    let r = evq_push k.fresh w.queue msg k.msg_size in (record w { queue = r.0 }, r.1)

-- the end of every function that sends for a client: the message is given back if it is not queued
unfoldable pub send_or_release : Call → ℕ → Option (World × PsMsg) → World → World × Bool
unfolding ps_send_ev uif_client_release
send_or_release k client none w = (w, false)
send_or_release k client (some (w', msg)) w =
    let r = ps_send_ev k w' msg in
    if r.1 then (r.0, true) else (uif_client_release r.0 client, false)

-- a message with nothing but the client and numbers
unfoldable pub client_msg : Call → World → ℕ → PsMsg → Option (World × PsMsg)
unfolding uif_client_acquire
client_msg k w client msg = if k.mem.msg_ok then some (uif_client_acquire w client, msg) else none

-- the end of `ps_send_class_loaded`
unfoldable pub send_or_dealloc : Call → Option (World × PsMsg) → World → World × Bool
unfolding ps_send_ev ps_send_class_ev_dealloc
send_or_dealloc k none w = (w, false)
send_or_dealloc k (some (w', msg)) w =
    let r = ps_send_ev k w' msg in
    if r.1 then (r.0, true) else (ps_send_class_ev_dealloc r.0 (loader_of msg), false)

-- `ps_send_class_loaded`
unfoldable pub ps_send_class_loaded : Call → World → Bytes → Bytes → Option ℕ → World × Bool
unfolding ps_send_class_ev_alloc send_or_dealloc
ps_send_class_loaded k w name bytecode loader =
    send_or_dealloc k (ps_send_class_ev_alloc k.mem w name bytecode loader) w

-- `ps_send_usr_rq_class_methods`
unfoldable pub ps_send_usr_rq_class_methods : Call → World → ℕ → Bytes → World × Bool
unfolding ps_usr_rq_class_methods_alloc send_or_release
ps_send_usr_rq_class_methods k w client class_name =
    send_or_release k client (ps_usr_rq_class_methods_alloc k.mem w client class_name) w

-- `ps_send_usr_rq_instrument_method`
unfoldable pub ps_send_usr_rq_instrument_method : Call → World → ℕ → Bytes → Bytes → World × Bool
unfolding ps_usr_rq_instrument_method_alloc send_or_release
ps_send_usr_rq_instrument_method k w client class_name method_sig =
    send_or_release k client
      (ps_usr_rq_instrument_method_alloc k.mem w client class_name method_sig) w

-- `ps_send_usr_rq_deinstrument_method`
unfoldable pub ps_send_usr_rq_deinstrument_method : Call → World → ℕ → Bytes → Bytes → World × Bool
unfolding ps_usr_rq_deinstrument_method_alloc send_or_release
ps_send_usr_rq_deinstrument_method k w client class_name method_sig =
    send_or_release k client
      (ps_usr_rq_deinstrument_method_alloc k.mem w client class_name method_sig) w

-- `ps_send_usr_rq_instrument_line`
unfoldable pub ps_send_usr_rq_instrument_line :
    Call → World → ℕ → Bytes → Bytes → ℕ → ℕ → World × Bool
unfolding ps_usr_rq_instrument_line_alloc send_or_release
ps_send_usr_rq_instrument_line k w client entry_class exit_class entry_line exit_line =
    send_or_release k client
      (ps_usr_rq_instrument_line_alloc k.mem w client entry_class exit_class entry_line exit_line) w

-- `ps_send_usr_rq_loaded_classes`
unfoldable pub ps_send_usr_rq_loaded_classes : Call → World → ℕ → World × Bool
unfolding client_msg send_or_release
ps_send_usr_rq_loaded_classes k w client =
    send_or_release k client (client_msg k w client (usr_rq_loaded_classes client)) w

-- `ps_send_usr_rq_get_stats`
unfoldable pub ps_send_usr_rq_get_stats : Call → World → ℕ → World × Bool
unfolding client_msg send_or_release
ps_send_usr_rq_get_stats k w client =
    send_or_release k client (client_msg k w client (usr_rq_get_stats client)) w

-- `ps_send_usr_rq_pause_threads`
unfoldable pub ps_send_usr_rq_pause_threads : Call → World → ℕ → World × Bool
unfolding client_msg send_or_release
ps_send_usr_rq_pause_threads k w client =
    send_or_release k client (client_msg k w client (usr_rq_pause_threads client)) w

-- `ps_send_usr_rq_list_instrumented`
unfoldable pub ps_send_usr_rq_list_instrumented : Call → World → ℕ → World × Bool
unfolding client_msg send_or_release
ps_send_usr_rq_list_instrumented k w client =
    send_or_release k client (client_msg k w client (usr_rq_list_instrumented client)) w

-- `ps_send_usr_rq_get_async_errors`
unfoldable pub ps_send_usr_rq_get_async_errors : Call → World → ℕ → World × Bool
unfolding client_msg send_or_release
ps_send_usr_rq_get_async_errors k w client =
    send_or_release k client (client_msg k w client (usr_rq_get_async_errors client)) w

-- `ps_send_usr_rq_get_status`
unfoldable pub ps_send_usr_rq_get_status : Call → World → ℕ → World × Bool
unfolding client_msg send_or_release
ps_send_usr_rq_get_status k w client =
    send_or_release k client (client_msg k w client (usr_rq_get_status client)) w

-- `ps_send_usr_rq_resume`
unfoldable pub ps_send_usr_rq_resume : Call → World → ℕ → World × Bool
unfolding client_msg send_or_release
ps_send_usr_rq_resume k w client =
    send_or_release k client (client_msg k w client (usr_rq_resume client)) w

-- `ps_send_usr_rq_deinstrument_by_id`
unfoldable pub ps_send_usr_rq_deinstrument_by_id : Call → World → ℕ → ℕ → World × Bool
unfolding client_msg send_or_release
ps_send_usr_rq_deinstrument_by_id k w client instrument_id =
    send_or_release k client
      (client_msg k w client (usr_rq_deinstrument_by_id client instrument_id)) w

-- the text of a shutdown message, of 255 bytes at most
unfoldable pub shutdown_text : Option Bytes → Bytes
unfolding strdup
shutdown_text none = []
shutdown_text (some msg) = take (psm_shutdown_request_msg_max - 1) (strdup msg)

-- `ps_send_shutdown_request`
unfoldable pub ps_send_shutdown_request : Call → World → ℕ → Option Bytes → World × Bool
unfolding ps_send_ev shutdown_text
ps_send_shutdown_request k w exit_code msg =
    if k.mem.msg_ok
    then ps_send_ev k w (ps_shutdown_request exit_code (shutdown_text msg))
    else (w, false)

-- what `ps_uif_handler` calls for a request that it parsed
unfoldable pub send_request : Call → World → ℕ → Request → World × Bool
unfolding ps_send_shutdown_request ps_send_usr_rq_loaded_classes ps_send_usr_rq_get_stats
    ps_send_usr_rq_pause_threads ps_send_usr_rq_list_instrumented ps_send_usr_rq_get_async_errors
    ps_send_usr_rq_get_status ps_send_usr_rq_resume ps_send_usr_rq_class_methods
    ps_send_usr_rq_instrument_method ps_send_usr_rq_deinstrument_method
    ps_send_usr_rq_deinstrument_by_id ps_send_usr_rq_instrument_line
send_request k w client loaded_classes = ps_send_usr_rq_loaded_classes k w client
send_request k w client get_stats = ps_send_usr_rq_get_stats k w client
send_request k w client pause_threads = ps_send_usr_rq_pause_threads k w client
send_request k w client list_instrumented = ps_send_usr_rq_list_instrumented k w client
send_request k w client get_async_errors = ps_send_usr_rq_get_async_errors k w client
send_request k w client get_status = ps_send_usr_rq_get_status k w client
send_request k w client resume = ps_send_usr_rq_resume k w client
send_request k w client shutdown_request = ps_send_shutdown_request k w 0 (some usr_shutdown_msg)
send_request k w client (class_methods name) = ps_send_usr_rq_class_methods k w client name
send_request k w client (instrument_method c m) = ps_send_usr_rq_instrument_method k w client c m
send_request k w client (deinstrument_method c m) =
    ps_send_usr_rq_deinstrument_method k w client c m
send_request k w client (deinstrument_by_id id) = ps_send_usr_rq_deinstrument_by_id k w client id
send_request k w client (instrument_line a b x y) =
    ps_send_usr_rq_instrument_line k w client a b x y
