-- ===== src/Server/Counting.antt =====
-- prof-server.c, prof-server-ev.c and user-if.c together: the counts of the clients while threads send
-- messages, clients come and go, and the server handles its messages.
use jauto_profiler_mcp.Prelude.{
  ℕ, ◌+◌, ◌<◌, ◌≡◌, refl, ap, ◌∙◌, sym, subst, inl, inr, Bool, List, [], ◌∷◌, ◌++◌, Option, none,
  some, drop, arith,
}
use jauto_profiler_mcp.HashTab.{Bytes, is_at}
use jauto_profiler_mcp.EvQueue.{EvNode, EvQueue, evq_init, evq_wait}
use jauto_profiler_mcp.EvQueue.Fifo.{IsQueue, waiting, evq_wait_lem}
use jauto_profiler_mcp.EvQueue.Trace.{IsMalloc, evq_init-IsQueue}
use jauto_profiler_mcp.Requests.{Request}
use jauto_profiler_mcp.ServerEv.{
  World, PsMsg, uif_client_acquire, uif_client_release, client_of, drop_one, bump,
}
use jauto_profiler_mcp.ServerEv.Send.{Call, send_request, ps_send_class_loaded}
use jauto_profiler_mcp.ServerEv.Counts.{
  holds, sum_of, Sent, IsFresh, send_request-Sent, ps_send_class_loaded-Sent, message,
}
use jauto_profiler_mcp.Server.{InstrHandler, Answers, Server}
use jauto_profiler_mcp.Server.Dispatch.{dispatch, serve}
use jauto_profiler_mcp.Server.Keeps.{dispatch-rc}

sum_of-append :
    (g : PsMsg → ℕ) (l m : List (PsMsg × ℕ)) → sum_of g (l ++ m) ≡ sum_of g l + sum_of g m
sum_of-append g [] m = omega arith
sum_of-append g ((msg, size) ∷ l) m = omega (arith, sum_of-append g l m)

-- `malloc` returns no node that is in the queue
abbrev pub IsNew : Call → EvQueue PsMsg → Type 0
IsNew k q = (l f : List ℕ) → IsQueue q l f → IsFresh k l f

-- a count is what the user interface holds and what the waiting messages hold
abbrev pub IsCounted : (ℕ → ℕ) → World → List ℕ → Type 0
IsCounted base w l = (c : ℕ) → w.rc c ≡ base c + sum_of (holds c) (waiting w.queue l)

module _ (ih : InstrHandler) where
  -- one step of any thread, with the counts that the user interface holds before and after it
  pub data Step : Server → (ℕ → ℕ) → Server → (ℕ → ℕ) → Type 0 where
    accept :
        (ps : Server) (base : ℕ → ℕ) (c : ℕ)
        → Step ps base (record ps { world = uif_client_acquire ps.world c }) (bump base c)
    close :
        (ps : Server) (base : ℕ → ℕ) (c : ℕ)
        → 0 < base c
        → Step ps base (record ps { world = uif_client_release ps.world c }) (drop_one base c)
    request :
        (ps : Server) (base : ℕ → ℕ) (k : Call) (c : ℕ) (r : Request)
        → IsNew k ps.world.queue
        → Step ps base (record ps { world = (send_request k ps.world c r).0 }) base
    loaded :
        (ps : Server) (base : ℕ → ℕ) (k : Call) (name bytecode : Bytes) (loader : Option ℕ)
        → IsNew k ps.world.queue
        → Step ps base
            (record ps { world = (ps_send_class_loaded k ps.world name bytecode loader).0 })
            base
    served :
        (ps ps' : Server) (base : ℕ → ℕ) (a : Answers) (goes_on : Bool)
        → serve ih a ps ≡ some (ps', goes_on)
        → Step ps base ps' base

  pub data Reach : Server → (ℕ → ℕ) → Type 0 where
    start :
        (ps : Server) (store : ℕ → EvNode PsMsg) (spare : List (Option ℕ))
        → IsMalloc [] spare
        → ps.world.queue ≡ evq_init store spare
        → Reach ps ps.world.rc
    next :
        (ps ps' : Server) (base base' : ℕ → ℕ)
        → Reach ps base
        → Step ps base ps' base'
        → Reach ps' base'

  -- The counts of a queue after a message was added.
  Sent-IsCounted :
      (k : Call) (w : World) (msg : PsMsg) (l f : List ℕ) (base : ℕ → ℕ) (x : World × Bool)
      → IsQueue w.queue l f
      → IsCounted base w l
      → Sent k w msg l f x
      → (m g : List ℕ) × IsQueue x.0.queue m g × IsCounted base x.0 m
  Sent-IsCounted k w msg l f base x ok counted (inl (_, same, rc, _)) = (
    l,
    f,
    subst (λ q. IsQueue q l f) (sym same) ok,
    λ c. rc c ∙ counted c ∙ ap (λ q. base c + sum_of (holds c) (waiting q l)) (sym same),
  )
  Sent-IsCounted k w msg l f base x ok counted (inr (_, (n, ok', e), rc, _)) = (
    l ++ n ∷ [],
    drop 1 f,
    ok',
    λ c. omega (
      arith,
      rc c,
      counted c,
      ap (sum_of (holds c)) e,
      sum_of-append (holds c) (waiting w.queue l) ((msg, k.msg_size) ∷ []),
    ),
  )

  -- Handling the oldest message.
  serve-IsCounted :
      (a : Answers) (ps ps' : Server) (goes_on : Bool) (l f : List ℕ) (base : ℕ → ℕ)
      → IsQueue ps.world.queue l f
      → IsCounted base ps.world l
      → serve ih a ps ≡ some (ps', goes_on)
      → (m g : List ℕ) × IsQueue ps'.world.queue m g × IsCounted base ps'.world m
  unfolding serve
  serve-IsCounted a ps ps' goes_on l f base ok counted run =
      elim (evq_wait_lem ps.world.queue l f ok) [
        | inl (_, made) ↦ let asleep : serve ih a ps ≡ none = rw (made, serve) refl in cc
        | inr (n, m, r, msg, size, split, made, ok', e) ↦
            let v : Server = record ps { world = record ps.world { queue = r } } in
            let taken : serve ih a ps ≡ some (dispatch ih a v msg) = rw (made, serve) refl in
            let after : (dispatch ih a v msg).0 ≡ ps' =
              ap (λ o. elim o as (λ _. Server) [ none ↦ ps | some p ↦ p.0 ]) (sym taken ∙ run) in
            let (same, _) = dispatch-rc ih a v msg 0 in
            subst (λ s. (m g : List ℕ) × IsQueue s.world.queue m g × IsCounted base s.world m) after
              (
                m,
                n ∷ f,
                subst (λ q. IsQueue q m (n ∷ f)) (sym same) ok',
                λ c. omega (
                  arith,
                  (dispatch-rc ih a v msg c).1,
                  counted c,
                  ap (sum_of (holds c)) e,
                  ap (λ q. sum_of (holds c) (waiting q m)) same,
                ),
              )
      ]

  Step-IsCounted :
      {ps ps' : Server} {base base' : ℕ → ℕ}
      → Step ps base ps' base'
      → (l f : List ℕ) → IsQueue ps.world.queue l f
      → IsCounted base ps.world l
      → (m g : List ℕ) × IsQueue ps'.world.queue m g × IsCounted base' ps'.world m
  unfolding uif_client_acquire uif_client_release
  Step-IsCounted (accept ps base c) l f ok counted = (l, f, ok, λ d. ground (arith, counted d))
  Step-IsCounted (close ps base c held) l f ok counted = (l, f, ok, λ d. ground (arith, counted d))
  Step-IsCounted (request ps base k c r new) l f ok counted =
      Sent-IsCounted k ps.world (message c r) l f base _ ok counted
        (send_request-Sent k ps.world l f ok (new l f ok) c r)
  Step-IsCounted (loaded ps base k name bytecode loader new) l f ok counted =
      Sent-IsCounted k ps.world _ l f base _ ok counted
        (ps_send_class_loaded-Sent k ps.world l f ok (new l f ok) name bytecode loader)
  Step-IsCounted (served ps ps' base a goes_on run) l f ok counted =
      serve-IsCounted a ps ps' goes_on l f base ok counted run

  -- Whatever the threads do, in any order, the queue is well-formed, and the count of each client is
  -- what the user interface holds and one for each message of the client that waits: no count is lost,
  -- and no client is freed while a message needs it.
  pub Reach-IsCounted :
      {ps : Server} {base : ℕ → ℕ}
      → Reach ps base
      → (l f : List ℕ) × IsQueue ps.world.queue l f × IsCounted base ps.world l
  Reach-IsCounted (start ps store spare m same) =
      let (f, ok) = evq_init-IsQueue store spare m in
      ([], f, subst (λ q. IsQueue q [] f) (sym same) ok, λ c. omega arith)
  Reach-IsCounted (next ps ps' base base' reach step) =
      let (l, f, ok, counted) = Reach-IsCounted reach in Step-IsCounted step l f ok counted

  -- A client whose message waits is alive, even after the user interface closed it, and handling a
  -- message gives back its count exactly once.
  pub waiting-IsAlive :
      {ps : Server} {base : ℕ → ℕ}
      → Reach ps base
      → (msg : PsMsg) (client : ℕ) → client_of msg ≡ some client
      → (q : EvQueue PsMsg) (size : ℕ) (a : Answers) → evq_wait ps.world.queue ≡ some (q, msg, size)
      → (0 < ps.world.rc client)
        × ((dispatch ih a (record ps { world = record ps.world { queue = q } }) msg).0.world.rc
                client
              + 1
            ≡ ps.world.rc client)
  waiting-IsAlive {ps} reach msg client held q size a run =
      let (l, f, ok, counted) = Reach-IsCounted reach in
      elim (evq_wait_lem ps.world.queue l f ok) [
        | inl (_, made) ↦ cc
        | inr (n, m, r, msg', size', split, made, ok', e) ↦
            let same : msg' ≡ msg =
              ap (λ o. elim o as (λ _. PsMsg) [ none ↦ msg | some p ↦ p.1 ]) (sym made ∙ run) in
            let one : holds client msg ≡ 1 = ground (arith, ap (λ o. is_at o client) held) in
            let some_count : 0 < ps.world.rc client =
              omega (
                arith,
                counted client,
                ap (sum_of (holds client)) e,
                ap (holds client) same,
                one,
              ) in
            (
              some_count,
              omega (
                arith,
                some_count,
                one,
                (dispatch-rc ih a (record ps { world = record ps.world { queue = q } }) msg
                    client).1,
              ),
            )
      ]
