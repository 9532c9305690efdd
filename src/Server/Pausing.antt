-- ===== src/Server/Pausing.antt =====
-- prof-server.c: the paused state of the process, as requests report and change it, and the end of the
-- process.
use jauto_profiler_mcp.Prelude.{
  ℕ, ◌<◌, ◌≡◌, refl, ap, ◌∙◌, ◌⊎◌, inl, inr, true, false, List, [], ◌∷◌, ◌++◌, some, if◌then◌else◌,
  arith, Bool-cases, if_holds, not, ltb, length,
}
use jauto_profiler_mcp.Responses.Short.{uif_respond_resume}
use jauto_profiler_mcp.ThreadPause.Refs.{resume_total}
use jauto_profiler_mcp.Server.{
  Server, exit_now, system_exit, suspended_count, handle_usr_rq_resume, reports_paused,
  handle_shutdown_request, may_start, resume_rp_unblocked, resume_rp_nochange,
}

empty_list : (l : List ℕ) → ltb 0 (length l) ≡ false → l ≡ []
empty_list [] e = refl
empty_list (a ∷ l) e = absurd (ground arith)

resume_running : (ps : Server) (client : ℕ) → (handle_usr_rq_resume ps client).paused ≡ false
unfolding handle_usr_rq_resume
resume_running ps client =
    let runs = λ (s : Server). s.paused ≡ false in
    if_holds runs ps.paused _ _ refl (if_holds runs (ltb 0 (suspended_count ps)) _ _ refl refl)

-- A process that was started paused keeps its suspended threads for the next request.
resume_started :
    (ps : Server) (client : ℕ)
    → ps.paused ≡ true
    → (handle_usr_rq_resume ps client).thread_pause ≡ ps.thread_pause
unfolding handle_usr_rq_resume
resume_started ps client e = rw e refl

-- Once the process was not started paused, one request resumes the threads.
resume_threads :
    (ps : Server) (client : ℕ)
    → ps.paused ≡ false
    → (handle_usr_rq_resume ps client).thread_pause.suspended_threads ≡ []
unfolding handle_usr_rq_resume
resume_threads ps client e = rw e (elim (Bool-cases (ltb 0 (suspended_count ps))) [
  | inl h ↦ rw h (resume_total ps.thread_pause (λ c. 0)).1
  | inr h ↦ rw h (empty_list ps.thread_pause.suspended_threads h)
])

reports_paused_lem :
    (ps : Server)
    → ps.paused ≡ false
    → reports_paused ps ≡ ltb 0 (length ps.thread_pause.suspended_threads)
unfolding reports_paused
reports_paused_lem ps e = rw e refl

-- A request to resume is answered with RESUME_RP_UNBLOCKED exactly when a request for the status,
-- handled instead of it, would report the process as paused, and with RESUME_RP_NOCHANGE otherwise.
pub resume-agrees :
    (ps : Server) (client : ℕ)
    → (handle_usr_rq_resume ps client).responses
      ≡ ps.responses
        ++ (
          client,
          uif_respond_resume
              (if reports_paused ps then resume_rp_unblocked else resume_rp_nochange),
        )
          ∷ []
unfolding handle_usr_rq_resume reports_paused
resume-agrees ps client = elim (Bool-cases ps.paused) [
  | inl e ↦ rw e refl
  | inr e ↦ rw e (elim (Bool-cases (ltb 0 (suspended_count ps))) [
    | inl some_held ↦ rw some_held refl
    | inr none_held ↦ rw none_held refl
  ])
]

-- Two requests to resume leave the process running: it may start, the snapshot of suspended threads is
-- empty, and the status is not paused. If it was started paused and threads were suspended too, the
-- status is still paused after the first; in all other cases one request does what two do.
pub resume-twice :
    (ps : Server) (client client' : ℕ)
    → let once = handle_usr_rq_resume ps client in
      let after = handle_usr_rq_resume once client' in
      (may_start after ≡ true)
      × (after.thread_pause.suspended_threads ≡ [])
      × (reports_paused after ≡ false)
      × ((ps.paused ≡ true) × (0 < suspended_count ps) × (reports_paused once ≡ true)
          ⊎ ((ps.paused ≡ false) ⊎ (suspended_count ps ≡ 0))
            × (may_start once ≡ true)
            × (once.thread_pause.suspended_threads ≡ [])
            × (reports_paused once ≡ false))
unfolding may_start
resume-twice ps client client' =
    let once = handle_usr_rq_resume ps client in
    let goes = resume_running ps client in
    let runs = resume_running once client' in
    let none_held = resume_threads once client' goes in
    (
      ap not runs,
      none_held,
      not_paused (handle_usr_rq_resume once client') runs none_held,
      elim (Bool-cases ps.paused) [
        | inr e ↦
            let released = resume_threads ps client e in
            inr (inl e, ap not goes, released, not_paused once goes released)
        | inl e ↦ elim (Bool-cases (ltb 0 (suspended_count ps))) [
          | inr h ↦
              let released =
                ap (λ t. t.suspended_threads) (resume_started ps client e)
                ∙ empty_list ps.thread_pause.suspended_threads h in
              inr (inr (ground arith), ap not goes, released, not_paused once goes released)
          | inl h ↦ inl (
            e,
            ground arith,
            reports_paused_lem once goes
                ∙ ap (λ t. ltb 0 (length t.suspended_threads)) (resume_started ps client e)
                ∙ h,
          )
        ]
      ],
    )
  where
    not_paused :
        (s : Server)
        → s.paused ≡ false
        → s.thread_pause.suspended_threads ≡ []
        → reports_paused s ≡ false
    not_paused s runs held = reports_paused_lem s runs ∙ ap (λ l. ltb 0 (length l)) held

-- A request to shut down ends the process with its exit code: at once while the process is paused, so
-- that no thread is left waiting for a resume, and by `System.exit` otherwise, after the hook that
-- holds up the shutdown was released if there is one.
pub shutdown-exits :
    (ps : Server) (code : ℕ)
    → (handle_shutdown_request ps code).exit
      ≡ some (if ps.paused then exit_now code else system_exit code ps.pause_on_exit)
unfolding handle_shutdown_request
shutdown-exits ps code = elim (Bool-cases ps.paused) [
  | inl e ↦ rw e refl
  | inr e ↦ rw e (elim (Bool-cases ps.pause_on_exit) [ inl h ↦ rw h refl | inr h ↦ rw h refl ])
]
