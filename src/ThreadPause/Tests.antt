-- ===== src/ThreadPause/Tests.antt =====
-- ps-thread-state.c: the theorems on a JVM with two threads of the application and a daemon, of which
-- one is listed only from the second round on.
use jauto_profiler_mcp.Prelude.{
  zero, suc, ℕ, ◌+◌, ◌≤◌, ◌<◌, ◌≡◌, refl, Bool, true, false, List, [], ◌∷◌, some,
}
use jauto_profiler_mcp.HashTab.Order.{times}
use jauto_profiler_mcp.ThreadPause.{
  Seen, Round, ps_thread_pause_alloc, suspend_ok, ps_thread_pause_suspend, ps_thread_pause_resume,
}
use jauto_profiler_mcp.ThreadPause.Partition.{IsBusy, IsQuiet}
use jauto_profiler_mcp.ThreadPause.Outcome.{targets, ps_thread_pause_suspend-Outcome, Outcome}
use jauto_profiler_mcp.ThreadPause.Refs.{
  IsBalanced, pause_resume-IsBalanced, resumes, total, resume-after-pause,
}

abbrev app : ℕ → Bool → Seen
app t held = record {
  thread = t;
  is_agent = false;
  is_daemon = some false;
  state_ok = true;
  state_suspended = held;
}

abbrev daemon : Seen
daemon = record {
  thread = 9;
  is_agent = false;
  is_daemon = some true;
  state_ok = true;
  state_suspended = false;
}

abbrev listing : List Seen → Round
listing ts = record {
  threads = some ts;
  lists_ok = true;
  results_ok = true;
  realloc_ok = true;
  ref_ok = λ t. true;
}

abbrev jvm : ℕ → Round
jvm zero = listing (app 1 false ∷ daemon ∷ [])
jvm (suc zero) = listing (app 1 true ∷ app 2 false ∷ daemon ∷ [])
jvm (suc (suc i)) = listing (app 1 true ∷ app 2 true ∷ daemon ∷ [])

suspended : (ps_thread_pause_suspend jvm ps_thread_pause_alloc).0.suspended_threads ≡ 1 ∷ 2 ∷ []
unfolding ps_thread_pause_suspend
suspended = refl

returned : (ps_thread_pause_suspend jvm ps_thread_pause_alloc).1 ≡ suspend_ok
unfolding ps_thread_pause_suspend
returned = refl

suspend-Outcome_example :
    Outcome jvm 0 8 ps_thread_pause_alloc (ps_thread_pause_suspend jvm ps_thread_pause_alloc)
suspend-Outcome_example = ps_thread_pause_suspend-Outcome jvm ps_thread_pause_alloc

pause_resume_example :
    IsBalanced (ps_thread_pause_suspend jvm ps_thread_pause_alloc).0
    × IsBalanced (ps_thread_pause_resume ps_thread_pause_alloc)
pause_resume_example = pause_resume-IsBalanced jvm ps_thread_pause_alloc (λ t. refl)

resume-after-pause_example :
    (k : ℕ) × (k ≤ 8)
    × ((j : ℕ) → j < k → IsBusy (jvm j))
    × IsQuiet (jvm k) (ps_thread_pause_suspend jvm ps_thread_pause_alloc).0.suspended_threads
    × ((t : ℕ)
        → total
            (resumes t)
            (ps_thread_pause_resume (ps_thread_pause_suspend jvm ps_thread_pause_alloc).0).calls
          ≡ total (resumes t) (ps_thread_pause_suspend jvm ps_thread_pause_alloc).0.calls
            + times t (targets (jvm k)))
    × ((ps_thread_pause_resume
          (ps_thread_pause_suspend jvm ps_thread_pause_alloc).0).suspended_threads
        ≡ [])
resume-after-pause_example = resume-after-pause jvm ps_thread_pause_alloc returned
