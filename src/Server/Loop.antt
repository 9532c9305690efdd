-- ===== src/Server/Loop.antt =====
-- prof-server.c: the event loop ends at the first message that asks for the end.
use jauto_profiler_mcp.Prelude.{
  ℕ, ◌<◌, ◌≡◌, refl, ap, ◌∙◌, sym, subst, inl, inr, Bool, true, false, List, [], ◌∷◌, ◌++◌, some,
  arith, zero, suc, length, not, ◌&&◌, drop,
}
use jauto_profiler_mcp.EvQueue.Fifo.{IsQueue, waiting, evq_wait_lem}
use jauto_profiler_mcp.ServerEv.{
  PsMsg, ps_shutdown, ps_shutdown_request, class_loaded, usr_rq_loaded_classes,
  usr_rq_class_methods, usr_rq_instrument_method, usr_rq_get_stats, usr_rq_deinstrument_method,
  usr_rq_resume, ps_shutdown_starting, usr_rq_pause_threads, usr_rq_list_instrumented,
  usr_rq_get_async_errors, usr_rq_deinstrument_by_id, usr_rq_instrument_line, usr_rq_get_status,
}
use jauto_profiler_mcp.Server.{InstrHandler, Answers, Server}
use jauto_profiler_mcp.Server.Dispatch.{dispatch, serve, event_loop}
use jauto_profiler_mcp.Server.Keeps.{dispatch-rc}

abbrev pub is_stop : PsMsg → Bool
is_stop ps_shutdown = true
is_stop (ps_shutdown_request code msg) = true
is_stop msg = false

abbrev pub none_stop : List (PsMsg × ℕ) → Bool
none_stop [] = true
none_stop ((msg, size) ∷ ms) = not (is_stop msg) && none_stop ms

module _ (ih : InstrHandler) where
  dispatch-is_stop :
      (a : Answers) (ps : Server) (msg : PsMsg) → (dispatch ih a ps msg).1 ≡ not (is_stop msg)
  unfolding dispatch
  dispatch-is_stop a ps (class_loaded n b l) = refl
  dispatch-is_stop a ps (usr_rq_loaded_classes c) = refl
  dispatch-is_stop a ps (usr_rq_class_methods c n) = refl
  dispatch-is_stop a ps (usr_rq_instrument_method c n m) = refl
  dispatch-is_stop a ps (usr_rq_get_stats c) = refl
  dispatch-is_stop a ps (usr_rq_deinstrument_method c n m) = refl
  dispatch-is_stop a ps (usr_rq_resume c) = refl
  dispatch-is_stop a ps ps_shutdown = refl
  dispatch-is_stop a ps (ps_shutdown_request code m) = refl
  dispatch-is_stop a ps ps_shutdown_starting = refl
  dispatch-is_stop a ps (usr_rq_pause_threads c) = refl
  dispatch-is_stop a ps (usr_rq_list_instrumented c) = refl
  dispatch-is_stop a ps (usr_rq_get_async_errors c) = refl
  dispatch-is_stop a ps (usr_rq_deinstrument_by_id c id) = refl
  dispatch-is_stop a ps (usr_rq_instrument_line c x y z u) = refl
  dispatch-is_stop a ps (usr_rq_get_status c) = refl

  -- One round with the oldest message.
  serve_lem :
      (a : Answers) (ps : Server) (l f : List ℕ) (msg : PsMsg) (size : ℕ) (ms : List (PsMsg × ℕ))
      → IsQueue ps.world.queue l f
      → waiting ps.world.queue l ≡ (msg, size) ∷ ms
      → (ps' : Server) × (m g : List ℕ) × (serve ih a ps ≡ some (ps', not (is_stop msg)))
        × IsQueue ps'.world.queue m g
        × (waiting ps'.world.queue m ≡ ms)
  unfolding serve
  serve_lem a ps l f msg size ms ok is = elim (evq_wait_lem ps.world.queue l f ok) [
    | inl (empty, _) ↦
        let no_message : waiting ps.world.queue l ≡ [] = ap (waiting ps.world.queue) empty in cc
    | inr (n, m, r, msg', size', split, made, ok', e) ↦
        let v : Server = record ps { world = record ps.world { queue = r } } in
        let same : msg' ≡ msg =
          ap (λ o. elim o as (λ _. PsMsg) [ [] ↦ msg | p ∷ ps ↦ p.0 ]) (sym e ∙ is) in
        let d = dispatch ih a v msg in
        let kept = (dispatch-rc ih a v msg 0).0 in
        (
          d.0,
          m,
          n ∷ f,
          rw (made, serve)
              (ap (λ m. some (dispatch ih a v m)) same
                ∙ ap (λ b. some (d.0, b)) (dispatch-is_stop a v msg)),
          subst (λ q. IsQueue q m (n ∷ f)) (sym kept) ok',
          ap (λ q. waiting q m) kept ∙ ap (drop 1) (sym e ∙ is),
        )
  ]

  -- The event loop ends: if a message that asks for the end waits behind `before`, in which none does,
  -- it handles those messages and that one, and returns; the messages behind it are left in the
  -- queue, which is well-formed. No message is added meanwhile; one round for each message is enough.
  pub event_loop-stops :
      (before : List (PsMsg × ℕ)) (stop : PsMsg) (size : ℕ) (after : List (PsMsg × ℕ))
      (a : ℕ → Answers) (ps : Server) (l f : List ℕ) (fuel : ℕ)
      → IsQueue ps.world.queue l f
      → waiting ps.world.queue l ≡ before ++ (stop, size) ∷ after
      → none_stop before ≡ true
      → is_stop stop ≡ true
      → length before < fuel
      → (ps' : Server) × (m g : List ℕ) × (event_loop ih fuel a ps ≡ some ps')
        × IsQueue ps'.world.queue m g
        × (waiting ps'.world.queue m ≡ after)
  unfolding event_loop
  event_loop-stops before stop size after a ps l f zero ok is go end lt = absurd (omega (arith, lt))
  event_loop-stops [] stop size after a ps l f (suc n) ok is go end lt =
      let (ps', m, g, run, ok', left) = serve_lem (a n) ps l f stop size after ok is in
      (ps', m, g, rw (run, event_loop) (rw end refl), ok', left)
  event_loop-stops ((msg, s) ∷ before) stop size after a ps l f (suc n) ok is go end lt =
      let (ps', m, g, run, ok', left) =
        serve_lem (a n) ps l f msg s (before ++ (stop, size) ∷ after) ok is in
      let goes : not (is_stop msg) ≡ true = ground arith in
      let (ps'', m', g', run', ok'', left') =
        event_loop-stops before stop size after a ps' m g n ok' left (ground arith) end
          (omega (arith, lt)) in
      (ps'', m', g', rw (run, event_loop) (rw goes run'), ok'', left')
