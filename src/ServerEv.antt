-- ===== src/ServerEv.antt =====
-- c-src/main/prof-server-ev.c, prof-server-msg.h and util/ref-count.h: the messages to the server's
-- thread, made from the requests of the clients and from the hooks of the JVM, and put into the queue
-- of ev-queue.c. A message with a client holds a count of it, and one with a class loader a global
-- reference of it; `Counts` has both. `Memory` has the answers of `strdup`, `malloc` and
-- `NewGlobalRef`; `fresh` is what `malloc` returns for a node of the queue. The size of a message is a
-- parameter, and counts are taken not to overflow an `int`.
pub mod Counts
pub mod Send
mod Tests
use jauto_profiler_mcp.Prelude.{
  ℕ, zero, suc, ◌+◌, ◌-◌, Bool, true, false, not, ◌&&◌, List, [], ◌∷◌, ◌++◌, Option, none, some,
  ◌==◌, if◌then◌else◌, take,
}
use jauto_profiler_mcp.HashTab.{Bytes}
use jauto_profiler_mcp.EvQueue.{EvQueue, evq_push}
use jauto_profiler_mcp.Requests.{Request}

-- PSM_SHUTDOWN_REQUEST_MSG_MAX
abbrev pub psm_shutdown_request_msg_max : ℕ
psm_shutdown_request_msg_max = 256

-- USR_SHUTDOWN_MSG, "User requested shutdown"
abbrev pub usr_shutdown_msg : Bytes
usr_shutdown_msg =
    85 ∷ 115 ∷ 101 ∷ 114 ∷ 32 ∷ 114 ∷ 101 ∷ 113 ∷ 117 ∷ 101 ∷ 115 ∷ 116 ∷ 101 ∷ 100 ∷ 32 ∷ 115 ∷ 104
    ∷ 117 ∷ 116 ∷ 100 ∷ 111 ∷ 119 ∷ 110 ∷ []

-- `struct ps_msg` and `enum ps_msg_type`; a client and a class loader are numbers
pub data PsMsg : Type 0 where
  class_loaded : (name bytecode : Bytes) (loader : Option ℕ) → PsMsg
  usr_rq_loaded_classes : (client : ℕ) → PsMsg
  usr_rq_class_methods : (client : ℕ) (class_name : Bytes) → PsMsg
  usr_rq_instrument_method : (client : ℕ) (class_name method_sig : Bytes) → PsMsg
  usr_rq_get_stats : (client : ℕ) → PsMsg
  usr_rq_deinstrument_method : (client : ℕ) (class_name method_sig : Bytes) → PsMsg
  usr_rq_resume : (client : ℕ) → PsMsg
  ps_shutdown : PsMsg
  ps_shutdown_request : (exit_code : ℕ) (msg : Bytes) → PsMsg
  ps_shutdown_starting : PsMsg
  usr_rq_pause_threads : (client : ℕ) → PsMsg
  usr_rq_list_instrumented : (client : ℕ) → PsMsg
  usr_rq_get_async_errors : (client : ℕ) → PsMsg
  usr_rq_deinstrument_by_id : (client instrument_id : ℕ) → PsMsg
  usr_rq_instrument_line :
      (client : ℕ) (entry_class exit_class : Bytes) (entry_line exit_line : ℕ) → PsMsg
  usr_rq_get_status : (client : ℕ) → PsMsg

-- the queue, the reference counts of the clients, and how many global references an object has
pub record World : Type 0 where
  pub queue : EvQueue PsMsg
  pub rc : ℕ → ℕ
  pub globals : ℕ → ℕ

pub record Memory : Type 0 where
  pub first_ok : Bool
  pub second_ok : Bool
  pub msg_ok : Bool
  pub global_ok : Bool

abbrev pub bump : (ℕ → ℕ) → ℕ → ℕ → ℕ
bump f a b = if b == a then f b + 1 else f b

abbrev pub drop_one : (ℕ → ℕ) → ℕ → ℕ → ℕ
drop_one f a b = if b == a then f b - 1 else f b

-- `uif_client_acquire` by `rc_acquire`
unfoldable pub uif_client_acquire : World → ℕ → World
uif_client_acquire w client = record w { rc = bump w.rc client }

-- `uif_client_release` by `rc_release`; the client is freed at 0
unfoldable pub uif_client_release : World → ℕ → World
uif_client_release w client = record w { rc = drop_one w.rc client }

-- `NewGlobalRef` and `DeleteGlobalRef`, which `jni_safe_free_global_obj` calls if there is one
unfoldable pub new_global_ref : Memory → World → Option ℕ → World × Option ℕ
new_global_ref mem w none = (w, none)
new_global_ref mem w (some a) =
    if mem.global_ok then (record w { globals = bump w.globals a }, some a) else (w, none)

unfoldable pub delete_global_ref : World → Option ℕ → World
delete_global_ref w none = w
delete_global_ref w (some a) = record w { globals = drop_one w.globals a }

-- `strdup`: the bytes before the first zero
unfoldable pub strdup : Bytes → Bytes
strdup [] = []
strdup (c ∷ cs) = let rest = strdup cs in if c == 0 then [] else c ∷ rest

-- the client that a message holds
abbrev pub client_of : PsMsg → Option ℕ
client_of (usr_rq_loaded_classes c) = some c
client_of (usr_rq_class_methods c n) = some c
client_of (usr_rq_instrument_method c n m) = some c
client_of (usr_rq_get_stats c) = some c
client_of (usr_rq_deinstrument_method c n m) = some c
client_of (usr_rq_resume c) = some c
client_of (usr_rq_pause_threads c) = some c
client_of (usr_rq_list_instrumented c) = some c
client_of (usr_rq_get_async_errors c) = some c
client_of (usr_rq_deinstrument_by_id c id) = some c
client_of (usr_rq_instrument_line c a b x y) = some c
client_of (usr_rq_get_status c) = some c
client_of msg = none

-- the class loader that a message holds
abbrev pub loader_of : PsMsg → Option ℕ
loader_of (class_loaded name bytecode loader) = loader
loader_of msg = none

-- `ps_send_class_ev_alloc`
unfoldable pub ps_send_class_ev_alloc :
    Memory → World → Bytes → Bytes → Option ℕ → Option (World × PsMsg)
unfolding strdup new_global_ref
ps_send_class_ev_alloc mem w name bytecode loader =
    if not mem.first_ok
    then none
    else if not mem.second_ok
    then none
    else if not mem.msg_ok
    then none
    else let r = new_global_ref mem w loader in some (r.0, class_loaded (strdup name) bytecode r.1)

-- `ps_usr_rq_class_methods_alloc`
unfoldable pub ps_usr_rq_class_methods_alloc : Memory → World → ℕ → Bytes → Option (World × PsMsg)
unfolding strdup uif_client_acquire
ps_usr_rq_class_methods_alloc mem w client class_name =
    if not mem.first_ok
    then none
    else if not mem.msg_ok
    then none
    else some (uif_client_acquire w client, usr_rq_class_methods client (strdup class_name))

-- `ps_usr_rq_instrument_method_alloc`
unfoldable pub ps_usr_rq_instrument_method_alloc :
    Memory → World → ℕ → Bytes → Bytes → Option (World × PsMsg)
unfolding strdup uif_client_acquire
ps_usr_rq_instrument_method_alloc mem w client class_name method_sig =
    if not mem.first_ok
    then none
    else if not mem.second_ok
    then none
    else if not mem.msg_ok
    then none
    else some (
      uif_client_acquire w client,
      usr_rq_instrument_method client (strdup class_name) (strdup method_sig),
    )

-- `ps_usr_rq_deinstrument_method_alloc`
unfoldable pub ps_usr_rq_deinstrument_method_alloc :
    Memory → World → ℕ → Bytes → Bytes → Option (World × PsMsg)
unfolding strdup uif_client_acquire
ps_usr_rq_deinstrument_method_alloc mem w client class_name method_sig =
    if not mem.first_ok
    then none
    else if not mem.second_ok
    then none
    else if not mem.msg_ok
    then none
    else some (
      uif_client_acquire w client,
      usr_rq_deinstrument_method client (strdup class_name) (strdup method_sig),
    )

-- `ps_usr_rq_instrument_line_alloc`, which copies the strings by `pstring_dup`
unfoldable pub ps_usr_rq_instrument_line_alloc :
    Memory → World → ℕ → Bytes → Bytes → ℕ → ℕ → Option (World × PsMsg)
unfolding uif_client_acquire
ps_usr_rq_instrument_line_alloc mem w client entry_class exit_class entry_line exit_line =
    if not mem.first_ok
    then none
    else if not mem.second_ok
    then none
    else if not mem.msg_ok
    then none
    else some (
      uif_client_acquire w client,
      usr_rq_instrument_line client entry_class exit_class entry_line exit_line,
    )

-- `ps_send_class_ev_dealloc`, with a JNI environment
unfoldable pub ps_send_class_ev_dealloc : World → Option ℕ → World
unfolding delete_global_ref
ps_send_class_ev_dealloc w loader = delete_global_ref w loader
