-- ===== src/ThreadPause.antt =====
-- c-src/main/ps-thread-state.c: suspending all the application's threads, in rounds until no thread
-- is left that runs, and resuming them. What the JVM answers in a round is a parameter (`Round`);
-- `Call` records what the code does to the JVM. A thread is a number; the array of suspended threads
-- is a list, whose length is `suspended_count`.
mod Partition
pub mod Outcome
pub mod Refs
mod Tests
use jauto_profiler_mcp.Prelude.{
  ℕ, zero, suc, ◌+◌, Bool, true, false, not, ◌&&◌, List, [], ◌∷◌, ◌++◌, map, Option, none, some,
  if◌then◌else◌,
}

-- MAX_SUSPEND_ITERATIONS
abbrev pub max_suspend_iterations : ℕ
max_suspend_iterations = 8

-- what the JVM says of a thread: whether it is the agent's (`IsSameObject`), whether it is a daemon,
-- where `GetThreadInfo` succeeds, and what `GetThreadState` says
pub record Seen : Type 0 where
  pub thread : ℕ
  pub is_agent : Bool
  pub is_daemon : Option Bool
  pub state_ok : Bool
  pub state_suspended : Bool

-- one round: the answer of `GetAllThreads`, of the allocations, and of `NewGlobalRef`
pub record Round : Type 0 where
  pub threads : Option (List Seen)
  pub lists_ok : Bool
  pub results_ok : Bool
  pub realloc_ok : Bool
  pub ref_ok : ℕ → Bool

-- calls that change the JVM
pub data Call : Type 0 where
  suspend_thread_list : List ℕ → Call
  resume_thread : ℕ → Call
  new_global_ref : ℕ → Call
  delete_global_ref : ℕ → Call

-- `struct ps_thread_pause`, with the calls made so far
pub record ThreadPause : Type 0 where
  pub suspended_threads : List ℕ
  pub calls : List Call

-- `enum ps_suspend_result`
pub data SuspendResult : Type 0 where
  suspend_ok : SuspendResult
  suspend_race : SuspendResult
  suspend_error : SuspendResult

-- the `int` of a round: 0, 1 and -1
pub data RoundResult : Type 0 where
  done : RoundResult
  again : RoundResult
  failed : RoundResult

-- `ps_thread_pause_alloc`, where `malloc` succeeds
abbrev pub ps_thread_pause_alloc : ThreadPause
ps_thread_pause_alloc = record { suspended_threads = []; calls = [] }

-- `classify_thread`
unfoldable pub classify_thread : Seen → Bool
classify_thread s = if s.is_agent then false else elim s.is_daemon [ none ↦ false | some d ↦ not d ]

-- the loop of `fetch_threads`: the threads that are suspended already, and those to suspend
unfoldable pub partition : List Seen → List ℕ × List ℕ
unfolding classify_thread
partition [] = ([], [])
partition (s ∷ ss) =
    let rest = partition ss in
    if not (classify_thread s)
    then rest
    else if not (s.state_ok && s.state_suspended)
    then (rest.0, s.thread ∷ rest.1)
    else (s.thread ∷ rest.0, rest.1)

-- `fetch_threads`
unfoldable pub fetch_threads : Round → Option (List ℕ × List ℕ)
unfolding partition
fetch_threads r = elim r.threads [
  | none ↦ none
  | some seen ↦ if r.lists_ok then some (partition seen) else none
]

-- the loop of `build_snapshot`: the references made, and whether all were
unfoldable pub make_refs : (ℕ → Bool) → List ℕ → List ℕ × Bool
make_refs ref_ok [] = ([], true)
make_refs ref_ok (t ∷ ts) =
    let rest = make_refs ref_ok ts in if ref_ok t then (t ∷ rest.0, rest.1) else ([], false)

-- `build_snapshot`: the state, and whether it returned 0
unfoldable pub build_snapshot : Round → List ℕ → ThreadPause → ThreadPause × Bool
unfolding make_refs
build_snapshot r [] st = (
  record { suspended_threads = []; calls = st.calls ++ map delete_global_ref st.suspended_threads },
  true,
)
build_snapshot r (t ∷ ts) st =
    let calls = st.calls ++ map delete_global_ref st.suspended_threads in
    let made = make_refs r.ref_ok (t ∷ ts) in
    if not r.realloc_ok
    then (record { suspended_threads = []; calls = calls }, false)
    else if made.1
    then (record { suspended_threads = made.0; calls = calls ++ map new_global_ref made.0 }, true)
    else (
      record {
        suspended_threads = [];
        calls = calls ++ map new_global_ref made.0 ++ map delete_global_ref made.0;
      },
      false,
    )

-- `suspend_new_threads`
unfoldable pub suspend_new_threads : Round → ThreadPause → ThreadPause × RoundResult
unfolding fetch_threads build_snapshot
suspend_new_threads r st = elim (fetch_threads r) [
  | none ↦ (st, failed)
  | some (suspended, []) ↦
      let built = build_snapshot r suspended st in (built.0, if built.1 then done else failed)
  | some (suspended, t ∷ ts) ↦
      if r.results_ok
      then (record st { calls = st.calls ++ suspend_thread_list (t ∷ ts) ∷ [] }, again)
      else (st, failed)
]

-- `convergence_check`
unfoldable pub convergence_check : Round → ThreadPause → ThreadPause × RoundResult
unfolding fetch_threads build_snapshot
convergence_check r st = elim (fetch_threads r) [
  | none ↦ (st, failed)
  | some (suspended, to_suspend) ↦
      let built = build_snapshot r suspended st in
      (built.0, if built.1 then elim to_suspend [ [] ↦ done | t ∷ ts ↦ again ] else failed)
]

-- the loop of `ps_thread_pause_suspend` with `n` rounds left, from round `i` on
unfoldable pub suspend_rounds : ℕ → (ℕ → Round) → ℕ → ThreadPause → ThreadPause × SuspendResult
unfolding suspend_new_threads convergence_check
suspend_rounds zero jvm i st =
    let r = convergence_check (jvm i) st in
    (r.0, elim r.1 [ done ↦ suspend_ok | again ↦ suspend_race | failed ↦ suspend_error ])
suspend_rounds (suc n) jvm i st =
    let r = suspend_new_threads (jvm i) st in
    let rest = suspend_rounds n jvm (i + 1) r.0 in
    elim r.1 [ done ↦ (r.0, suspend_ok) | again ↦ rest | failed ↦ (r.0, suspend_error) ]

-- `ps_thread_pause_suspend`
unfoldable pub ps_thread_pause_suspend : (ℕ → Round) → ThreadPause → ThreadPause × SuspendResult
unfolding suspend_rounds
ps_thread_pause_suspend jvm st = suspend_rounds max_suspend_iterations jvm 0 st

-- the loop of `ps_thread_pause_resume`
unfoldable pub resume_calls : List ℕ → List Call
resume_calls [] = []
resume_calls (t ∷ ts) = resume_thread t ∷ delete_global_ref t ∷ resume_calls ts

-- `ps_thread_pause_resume`, which always returns 0
unfoldable pub ps_thread_pause_resume : ThreadPause → ThreadPause
unfolding resume_calls
ps_thread_pause_resume st = elim st.suspended_threads [
  | [] ↦ st
  | t ∷ ts ↦ record { suspended_threads = []; calls = st.calls ++ resume_calls (t ∷ ts) }
]
