-- ===== src/ServerEv/Counts.antt =====
-- prof-server-ev.c: what sending does to the queue, and the counts of clients and class loaders.
use jauto_profiler_mcp.Prelude.{
  ℕ, ◌+◌, ◌≡◌, refl, ap, ◌∙◌, sym, subst, ◌⊎◌, inl, inr, Bool, true, false, not, List, [], ◌∷◌,
  ◌++◌, Option, none, some, if◌then◌else◌, drop, arith, Bool-cases,
}
use jauto_profiler_mcp.HashTab.{Bytes, is_at}
use jauto_profiler_mcp.HashTab.Order.{times, to_nat}
use jauto_profiler_mcp.EvQueue.{EvQueue, evq_push}
use jauto_profiler_mcp.EvQueue.Fifo.{IsQueue, waiting, evq_push_lem}
use jauto_profiler_mcp.Requests.{
  Request, loaded_classes, get_stats, shutdown_request, resume, pause_threads, list_instrumented,
  get_async_errors, get_status, class_methods, instrument_method, deinstrument_method,
  deinstrument_by_id, instrument_line,
}
use jauto_profiler_mcp.ServerEv.{
  World, PsMsg, class_loaded, usr_rq_loaded_classes, usr_rq_class_methods, usr_rq_instrument_method,
  usr_rq_get_stats, usr_rq_deinstrument_method, usr_rq_resume, ps_shutdown_request,
  usr_rq_pause_threads, usr_rq_list_instrumented, usr_rq_get_async_errors,
  usr_rq_deinstrument_by_id, usr_rq_instrument_line, usr_rq_get_status, uif_client_acquire,
  uif_client_release, strdup, client_of, loader_of, usr_shutdown_msg, ps_send_class_ev_dealloc,
  new_global_ref, delete_global_ref,
}
use jauto_profiler_mcp.ServerEv.Send.{
  Call, ps_send_ev, send_or_release, send_or_dealloc, client_msg, send_request,
  ps_send_class_loaded,
}

-- how many counts of the client `c`, or references of the object `g`, messages hold
abbrev pub holds : ℕ → PsMsg → ℕ
holds c msg = to_nat (is_at (client_of msg) c)

abbrev pub loads : ℕ → PsMsg → ℕ
loads g msg = to_nat (is_at (loader_of msg) g)

abbrev pub sum_of : (PsMsg → ℕ) → List (PsMsg × ℕ) → ℕ
sum_of f [] = 0
sum_of f ((msg, size) ∷ ms) = f msg + sum_of f ms

-- The call failed and changed nothing, or the message waits behind the others and its counts are
-- taken.
abbrev pub Sent : Call → World → PsMsg → List ℕ → List ℕ → World × Bool → Type 0
Sent k w msg l f x =
    (x.1 ≡ false)
      × (x.0.queue ≡ w.queue)
      × ((c : ℕ) → x.0.rc c ≡ w.rc c)
      × ((g : ℕ) → x.0.globals g ≡ w.globals g)
    ⊎ (x.1 ≡ true)
      × ((n : ℕ) × IsQueue x.0.queue (l ++ n ∷ []) (drop 1 f)
          × (waiting x.0.queue (l ++ n ∷ []) ≡ waiting w.queue l ++ (msg, k.msg_size) ∷ []))
      × ((c : ℕ) → x.0.rc c ≡ w.rc c + holds c msg)
      × ((g : ℕ) → x.0.globals g ≡ w.globals g + loads g msg)

-- the blocks that `malloc` may return
abbrev pub IsFresh : Call → List ℕ → List ℕ → Type 0
IsFresh k l f = (n : ℕ) → k.fresh ≡ some n → times n l + times n f ≡ 0

-- Whether the allocations of a message succeed.
if_made :
    {A : Type 0} (b : Bool) (x y : Option A)
    → (y ≡ none) ⊎ (y ≡ x)
    → ((if not b then none else y) ≡ none) ⊎ ((if not b then none else y) ≡ x)
if_made true x y h = h
if_made false x y h = inl refl

if_same : (r : World × Bool) → (if r.1 then (r.0, true) else (r.0, false)) ≡ r
if_same (w, true) = refl
if_same (w, false) = refl

-- the message of a request
abbrev pub message : ℕ → Request → PsMsg
message client loaded_classes = usr_rq_loaded_classes client
message client get_stats = usr_rq_get_stats client
message client shutdown_request = ps_shutdown_request 0 usr_shutdown_msg
message client resume = usr_rq_resume client
message client pause_threads = usr_rq_pause_threads client
message client list_instrumented = usr_rq_list_instrumented client
message client get_async_errors = usr_rq_get_async_errors client
message client get_status = usr_rq_get_status client
message client (class_methods name) = usr_rq_class_methods client (strdup name)
message client (instrument_method c m) = usr_rq_instrument_method client (strdup c) (strdup m)
message client (deinstrument_method c m) = usr_rq_deinstrument_method client (strdup c) (strdup m)
message client (deinstrument_by_id id) = usr_rq_deinstrument_by_id client id
message client (instrument_line a b x y) = usr_rq_instrument_line client a b x y

module _ (k : Call) (w : World) (l f : List ℕ) (ok : IsQueue w.queue l f)
    (new : IsFresh k l f) where
  -- Sending, where `v` has the counts of the message and `back` gives them back.
  send_ev-Sent :
      (v : World) (msg : PsMsg) (back : World → World)
      → v.queue ≡ w.queue
      → ((c : ℕ) → v.rc c ≡ w.rc c + holds c msg)
      → ((g : ℕ) → v.globals g ≡ w.globals g + loads g msg)
      → let v' : World = record v { queue = w.queue } in
        (((back v').queue ≡ w.queue)
          × ((c : ℕ) → (back v').rc c ≡ w.rc c)
          × ((g : ℕ) → (back v').globals g ≡ w.globals g))
        → let r = ps_send_ev k v msg in
          Sent k w msg l f (if r.1 then (r.0, true) else (back r.0, false))
  unfolding ps_send_ev
  send_ev-Sent v msg back same rc globals undone =
      elim (evq_push_lem k.fresh w.queue msg k.msg_size l f ok new) [
        | inl (_, _, made) ↦
            let (a, b, c) = undone in by_equation (w.queue, false) made (inl (refl, a, b, c))
        | inr (n, r, _, made, ok', e) ↦
            by_equation (r, true) made (inr (refl, (n, ok', e), rc, globals))
      ]
    where
      by_equation :
          (p : EvQueue PsMsg × Bool)
          → evq_push k.fresh w.queue msg k.msg_size ≡ p
          → Sent k w msg l f (
              if p.1
              then (record v { queue = p.0 }, true)
              else (back (record v { queue = p.0 }), false))
          → Sent k w msg l f (
              if (ps_send_ev k v msg).1
              then ((ps_send_ev k v msg).0, true)
              else (back (ps_send_ev k v msg).0, false))
      by_equation p made =
          subst
            (λ p. Sent k w msg l f (
              if p.1
              then (record v { queue = p.0 }, true)
              else (back (record v { queue = p.0 }), false)))
            (sym (ap (λ q. evq_push k.fresh q msg k.msg_size) same ∙ made))

  send_or_release-Sent :
      (client : ℕ) (msg : PsMsg) (made : Option (World × PsMsg))
      → client_of msg ≡ some client
      → loader_of msg ≡ none
      → (made ≡ none) ⊎ (made ≡ some (uif_client_acquire w client, msg))
      → Sent k w msg l f (send_or_release k client made w)
  unfolding send_or_release uif_client_acquire uif_client_release
  send_or_release-Sent client msg made held no_loader (inl e) =
      subst (λ m. Sent k w msg l f (send_or_release k client m w)) (sym e)
        (inl (refl, refl, (λ c. refl), λ g. refl))
  send_or_release-Sent client msg made held no_loader (inr e) =
      subst (λ m. Sent k w msg l f (send_or_release k client m w)) (sym e)
        (send_ev-Sent (uif_client_acquire w client) msg (λ q. uif_client_release q client) refl
          (λ c. ground (arith, ap (λ o. is_at o c) held))
          (λ g. ground (arith, ap (λ o. is_at o g) no_loader))
          (refl, (λ c. ground arith), λ g. refl))

  new_global_ref_lem :
      (loader : Option ℕ)
      → let r = new_global_ref k.mem w loader in
        (r.0.queue ≡ w.queue)
        × (r.0.rc ≡ w.rc)
        × ((g : ℕ) → r.0.globals g ≡ w.globals g + to_nat (is_at r.1 g))
        × ((delete_global_ref (record r.0 { queue = w.queue }) r.1).queue ≡ w.queue)
        × ((delete_global_ref (record r.0 { queue = w.queue }) r.1).rc ≡ w.rc)
        × ((g : ℕ)
            → (delete_global_ref (record r.0 { queue = w.queue }) r.1).globals g ≡ w.globals g)
  unfolding new_global_ref delete_global_ref
  new_global_ref_lem none = (refl, refl, (λ g. omega arith), refl, refl, λ g. refl)
  new_global_ref_lem (some a) = elim (Bool-cases k.mem.global_ok) [
    | inl e ↦ rw e (refl, refl, (λ g. ground arith), refl, refl, λ g. ground arith)
    | inr e ↦ rw e (refl, refl, (λ g. omega arith), refl, refl, λ g. refl)
  ]

  send_or_dealloc-Sent :
      (name bytecode : Bytes) (loader : Option ℕ) (made : Option (World × PsMsg))
      → let r = new_global_ref k.mem w loader in
        let msg = class_loaded (strdup name) bytecode r.1 in
        (made ≡ none) ⊎ (made ≡ some (r.0, msg)) → Sent k w msg l f (send_or_dealloc k made w)
  unfolding send_or_dealloc
  send_or_dealloc-Sent name bytecode loader made (inl e) =
      subst
        (λ m.
          Sent k w (class_loaded (strdup name) bytecode (new_global_ref k.mem w loader).1) l f
            (send_or_dealloc k m w))
        (sym e) (inl (refl, refl, (λ c. refl), λ g. refl))
  send_or_dealloc-Sent name bytecode loader made (inr e) =
      let r = new_global_ref k.mem w loader in
      let msg = class_loaded (strdup name) bytecode r.1 in
      let (q, rc, globals, q', rc', globals') = new_global_ref_lem loader in
      subst (λ m. Sent k w msg l f (send_or_dealloc k m w)) (sym e)
        (send_ev-Sent r.0 msg (λ v. ps_send_class_ev_dealloc v r.1) q
          (λ c. ground (arith, ap (λ h. h c) rc)) globals (q', (λ c. ap (λ h. h c) rc'), globals'))

  -- `ps_send_class_loaded`: it fails and changes nothing, or the message waits behind the others and
  -- holds a global reference of the loader, if there is one and the reference could be made.
  pub ps_send_class_loaded-Sent :
      (name bytecode : Bytes) (loader : Option ℕ)
      → Sent k w
          (class_loaded (strdup name) bytecode (new_global_ref k.mem w loader).1)
          l
          f
          (ps_send_class_loaded k w name bytecode loader)
  unfolding ps_send_class_loaded
  ps_send_class_loaded-Sent name bytecode loader = send_or_dealloc-Sent name bytecode loader _ (
      if_made k.mem.first_ok _ _
        (if_made k.mem.second_ok _ _ (if_made k.mem.msg_ok _ _ (inr refl))))

  client_msg-made :
      (client : ℕ) (msg : PsMsg)
      → (client_msg k w client msg ≡ none)
        ⊎ (client_msg k w client msg ≡ some (uif_client_acquire w client, msg))
  unfolding client_msg
  client_msg-made client msg = elim (Bool-cases k.mem.msg_ok) [
    | inl e ↦ inr (rw e refl)
    | inr e ↦ inl (rw e refl)
  ]

  plain-Sent :
      (client : ℕ) (msg : PsMsg)
      → client_of msg ≡ some client
      → loader_of msg ≡ none
      → Sent k w msg l f (send_or_release k client (client_msg k w client msg) w)
  plain-Sent client msg held no_loader =
      send_or_release-Sent client msg (client_msg k w client msg) held no_loader
        (client_msg-made client msg)

  -- Sending a request of a client fails and changes nothing, neither the queue nor a count, or its
  -- message waits behind all others and holds one more count of the client, and the queue is
  -- well-formed.
  pub send_request-Sent :
      (client : ℕ) (request : Request)
      → Sent k w (message client request) l f (send_request k w client request)
  unfolding send_request
  send_request-Sent client loaded_classes = plain-Sent client _ refl refl
  send_request-Sent client get_stats = plain-Sent client _ refl refl
  send_request-Sent client resume = plain-Sent client _ refl refl
  send_request-Sent client pause_threads = plain-Sent client _ refl refl
  send_request-Sent client list_instrumented = plain-Sent client _ refl refl
  send_request-Sent client get_async_errors = plain-Sent client _ refl refl
  send_request-Sent client get_status = plain-Sent client _ refl refl
  send_request-Sent client (deinstrument_by_id id) = plain-Sent client _ refl refl
  send_request-Sent client (class_methods name) =
      send_or_release-Sent client _ _ refl refl
        (if_made k.mem.first_ok _ _ (if_made k.mem.msg_ok _ _ (inr refl)))
  send_request-Sent client (instrument_method c m) = send_or_release-Sent client _ _ refl refl (
      if_made k.mem.first_ok _ _
        (if_made k.mem.second_ok _ _ (if_made k.mem.msg_ok _ _ (inr refl))))
  send_request-Sent client (deinstrument_method c m) = send_or_release-Sent client _ _ refl refl (
      if_made k.mem.first_ok _ _
        (if_made k.mem.second_ok _ _ (if_made k.mem.msg_ok _ _ (inr refl))))
  send_request-Sent client (instrument_line a b x y) = send_or_release-Sent client _ _ refl refl (
      if_made k.mem.first_ok _ _
        (if_made k.mem.second_ok _ _ (if_made k.mem.msg_ok _ _ (inr refl))))
  send_request-Sent client shutdown_request = elim (Bool-cases k.mem.msg_ok) [
    | inr e ↦
        subst (Sent k w (ps_shutdown_request 0 usr_shutdown_msg) l f) (sym (rw e refl))
          (inl (refl, refl, (λ c. refl), λ g. refl))
    | inl e ↦
        subst (Sent k w (ps_shutdown_request 0 usr_shutdown_msg) l f)
          (if_same (ps_send_ev k w (ps_shutdown_request 0 usr_shutdown_msg)) ∙ sym (rw e refl))
          (send_ev-Sent w (ps_shutdown_request 0 usr_shutdown_msg) (λ q. q) refl (λ c. omega arith)
            (λ g. omega arith) (refl, (λ c. refl), λ g. refl))
  ]
