-- ===== src/ThreadPause/Refs.antt =====
-- ps-thread-state.c: the global references of the snapshot, and what resuming does.
use jauto_profiler_mcp.Prelude.{
  ℕ, zero, suc, ◌+◌, ◌≤◌, ◌<◌, ◌≡◌, refl, ap, ◌∙◌, sym, subst, inl, inr, Bool, true, false, List,
  [], ◌∷◌, if◌then◌else◌, arith, ◌==◌, ◌++◌, map, not,
}
use jauto_profiler_mcp.HashTab.Order.{times, to_nat}
use jauto_profiler_mcp.ThreadPause.{
  Round, ThreadPause, Call, suspend_thread_list, resume_thread, new_global_ref, delete_global_ref,
  done, again, failed, RoundResult, SuspendResult, suspend_error, suspend_ok, fetch_threads,
  make_refs, build_snapshot, suspend_new_threads, convergence_check, suspend_rounds,
  ps_thread_pause_suspend, resume_calls, ps_thread_pause_resume,
}
use jauto_profiler_mcp.ThreadPause.Partition.{list_cases, option_cases, IsBusy, IsQuiet}
use jauto_profiler_mcp.ThreadPause.Outcome.{targets, ps_thread_pause_suspend-Outcome}

-- calls that make, delete and resume `t`
abbrev pub makes : ℕ → Call → ℕ
makes t (new_global_ref a) = to_nat (a == t)
makes t c = 0

abbrev pub deletes : ℕ → Call → ℕ
deletes t (delete_global_ref a) = to_nat (a == t)
deletes t c = 0

abbrev pub resumes : ℕ → Call → ℕ
resumes t (resume_thread a) = to_nat (a == t)
resumes t c = 0

abbrev pub total : (Call → ℕ) → List Call → ℕ
total w [] = 0
total w (c ∷ cs) = w c + total w cs

-- the references that live are those of the snapshot
abbrev pub IsBalanced : ThreadPause → Type 0
IsBalanced st =
    (t : ℕ) → total (makes t) st.calls ≡ total (deletes t) st.calls + times t st.suspended_threads

total-append : (w : Call → ℕ) (l m : List Call) → total w (l ++ m) ≡ total w l + total w m
total-append w [] m = omega arith
total-append w (c ∷ l) m = omega (arith, total-append w l m)

total-map :
    (w : Call → ℕ) (f : ℕ → Call) (t : ℕ) (ts : List ℕ)
    → ((a : ℕ) → w (f a) ≡ to_nat (a == t))
    → total w (map f ts) ≡ times t ts
total-map w f t [] h = refl
total-map w f t (a ∷ ts) h = ground (arith, h a, total-map w f t ts h)

total-map_zero :
    (w : Call → ℕ) (f : ℕ → Call) (ts : List ℕ) → ((a : ℕ) → w (f a) ≡ 0) → total w (map f ts) ≡ 0
total-map_zero w f [] h = refl
total-map_zero w f (a ∷ ts) h = ground (arith, h a, total-map_zero w f ts h)

-- Deleting the references of the snapshot leaves none.
all_deleted :
    (st : ThreadPause)
    → IsBalanced st
    → IsBalanced (record {
      suspended_threads = [];
      calls = st.calls ++ map delete_global_ref st.suspended_threads;
    })
all_deleted st ok t =
    let d = map delete_global_ref st.suspended_threads in
    omega (
      arith,
      ok t,
      total-append (makes t) st.calls d,
      total-append (deletes t) st.calls d,
      total-map_zero (makes t) delete_global_ref st.suspended_threads (λ a. refl),
      total-map (deletes t) delete_global_ref t st.suspended_threads (λ a. refl),
    )

-- Making references for a new snapshot.
some_made :
    (cs : List Call) (ts : List ℕ)
    → IsBalanced (record { suspended_threads = []; calls = cs })
    → IsBalanced (record { suspended_threads = ts; calls = cs ++ map new_global_ref ts })
some_made cs ts ok t =
    let n = map new_global_ref ts in
    omega (
      arith,
      ok t,
      total-append (makes t) cs n,
      total-append (deletes t) cs n,
      total-map (makes t) new_global_ref t ts (λ a. refl),
      total-map_zero (deletes t) new_global_ref ts (λ a. refl),
    )

if_IsBalanced :
    {B : Type 0} (b : Bool) (x y : ThreadPause × B)
    → IsBalanced x.0
    → IsBalanced y.0
    → IsBalanced (if b then x else y).0
if_IsBalanced true x y hx hy = hx
if_IsBalanced false x y hx hy = hy

build_snapshot-IsBalanced :
    (r : Round) (ts : List ℕ) (st : ThreadPause)
    → IsBalanced st
    → IsBalanced (build_snapshot r ts st).0
unfolding build_snapshot
build_snapshot-IsBalanced r [] st ok = all_deleted st ok
build_snapshot-IsBalanced r (a ∷ ts) st ok =
    let calls = st.calls ++ map delete_global_ref st.suspended_threads in
    let new = make_refs r.ref_ok (a ∷ ts) in
    let after : IsBalanced
        (record { suspended_threads = new.0; calls = calls ++ map new_global_ref new.0 }) =
      some_made calls new.0 (all_deleted st ok) in
    if_IsBalanced (not r.realloc_ok) _ _ (all_deleted st ok)
      (if_IsBalanced new.1 _ _ after (all_deleted _ after))

suspend_new_threads-IsBalanced :
    (r : Round) (st : ThreadPause) → IsBalanced st → IsBalanced (suspend_new_threads r st).0
unfolding suspend_new_threads
suspend_new_threads-IsBalanced r st ok = elim (option_cases (fetch_threads r)) [
  | inl e ↦ by_equation (st, failed) (rw (e, suspend_new_threads) refl) ok
  | inr (f, e) ↦ elim (list_cases f.1) [
    | inl none_left ↦
        let built = build_snapshot r f.0 st in
        by_equation (built.0, if built.1 then done else failed)
          (rw (e, suspend_new_threads) (rw none_left refl)) (build_snapshot-IsBalanced r f.0 st ok)
    | inr (t, ts, some_left) ↦
        let more = record st { calls = st.calls ++ suspend_thread_list (t ∷ ts) ∷ [] } in
        by_equation (if r.results_ok then (more, again) else (st, failed))
          (rw (e, suspend_new_threads) (rw some_left refl))
          (if_IsBalanced r.results_ok (more, again) (st, failed)
            (λ s. omega (
              arith,
              ok s,
              total-append (makes s) st.calls (suspend_thread_list (t ∷ ts) ∷ []),
              total-append (deletes s) st.calls (suspend_thread_list (t ∷ ts) ∷ []),
            ))
            ok)
  ]
]
  where
    by_equation :
        (x : ThreadPause × RoundResult)
        → suspend_new_threads r st ≡ x
        → IsBalanced x.0
        → IsBalanced (suspend_new_threads r st).0
    by_equation x eq = subst (λ x. IsBalanced x.0) (sym eq)

convergence_check-IsBalanced :
    (r : Round) (st : ThreadPause) → IsBalanced st → IsBalanced (convergence_check r st).0
unfolding convergence_check
convergence_check-IsBalanced r st ok = elim (option_cases (fetch_threads r)) [
  | inl e ↦ subst IsBalanced (sym (rw (e, convergence_check) refl)) ok
  | inr (f, e) ↦
      subst IsBalanced (sym (rw (e, convergence_check) refl))
        (build_snapshot-IsBalanced r f.0 st ok)
]

suspend_rounds-IsBalanced :
    (n : ℕ) (jvm : ℕ → Round) (i : ℕ) (st : ThreadPause)
    → IsBalanced st
    → IsBalanced (suspend_rounds n jvm i st).0
unfolding suspend_rounds
suspend_rounds-IsBalanced zero jvm i st ok = convergence_check-IsBalanced (jvm i) st ok
suspend_rounds-IsBalanced (suc n) jvm i st ok =
    let r = suspend_new_threads (jvm i) st in
    let now = suspend_new_threads-IsBalanced (jvm i) st ok in
    elim r.1
      as (λ x.
        IsBalanced
          (elim x as (λ _. ThreadPause × SuspendResult) [
            | done ↦ (r.0, suspend_ok)
            | again ↦ suspend_rounds n jvm (i + 1) r.0
            | failed ↦ (r.0, suspend_error)
          ]).0) [
            | done ↦ now
            | again ↦ suspend_rounds-IsBalanced n jvm (i + 1) r.0 now
            | failed ↦ now
          ]

resume_calls-total :
    (t : ℕ) (ts : List ℕ)
    → (total (makes t) (resume_calls ts) ≡ 0)
      × (total (deletes t) (resume_calls ts) ≡ times t ts)
      × (total (resumes t) (resume_calls ts) ≡ times t ts)
unfolding resume_calls
resume_calls-total t [] = (refl, refl, refl)
resume_calls-total t (a ∷ ts) =
    let (e1, e2, e3) = resume_calls-total t ts in (omega arith, omega arith, omega arith)

resume_total_at :
    (ts : List ℕ) (cs : List Call) (w : Call → ℕ)
    → let st : ThreadPause = record { suspended_threads = ts; calls = cs } in
      (total w (ps_thread_pause_resume st).calls ≡ total w cs + total w (resume_calls ts))
      × ((ps_thread_pause_resume st).suspended_threads ≡ [])
unfolding ps_thread_pause_resume resume_calls
resume_total_at [] cs w = (omega arith, refl)
resume_total_at (t ∷ ts) cs w = (total-append w cs (resume_calls (t ∷ ts)), refl)

pub resume_total :
    (st : ThreadPause) (w : Call → ℕ)
    → (total w (ps_thread_pause_resume st).calls
        ≡ total w st.calls + total w (resume_calls st.suspended_threads))
      × ((ps_thread_pause_resume st).suspended_threads ≡ [])
resume_total st w = resume_total_at st.suspended_threads st.calls w

-- No global reference is leaked or deleted twice: pausing, whatever the JVM answers, and resuming
-- keep it so that a reference to each thread lives as often as the thread stands in the snapshot.
pub pause_resume-IsBalanced :
    (jvm : ℕ → Round) (st : ThreadPause)
    → IsBalanced st
    → IsBalanced (ps_thread_pause_suspend jvm st).0 × IsBalanced (ps_thread_pause_resume st)
unfolding ps_thread_pause_suspend
pause_resume-IsBalanced jvm st ok = (
  suspend_rounds-IsBalanced 8 jvm 0 st ok,
  λ t.
      let (m, empty) = resume_total st (makes t) in
      let (d, _) = resume_total st (deletes t) in
      let (m', d', _) = resume_calls-total t st.suspended_threads in
      omega (arith, ok t, ap (times t) empty),
)

-- Resuming after a pause that returned `PS_SUSPEND_OK` resumes the threads of the application, each
-- as often as the JVM listed it in the round `k`, and the snapshot is empty then. `k` is the first
-- round in which no thread of the application ran, and the last of the pause.
pub resume-after-pause :
    (jvm : ℕ → Round) (st : ThreadPause)
    → (ps_thread_pause_suspend jvm st).1 ≡ suspend_ok
    → (k : ℕ) × (k ≤ 8)
      × ((j : ℕ) → j < k → IsBusy (jvm j))
      × IsQuiet (jvm k) (ps_thread_pause_suspend jvm st).0.suspended_threads
      × ((t : ℕ)
          → total (resumes t) (ps_thread_pause_resume (ps_thread_pause_suspend jvm st).0).calls
            ≡ total (resumes t) (ps_thread_pause_suspend jvm st).0.calls
              + times t (targets (jvm k)))
      × ((ps_thread_pause_resume (ps_thread_pause_suspend jvm st).0).suspended_threads ≡ [])
resume-after-pause jvm st ok =
    let (k, _, le, busy, out) = ps_thread_pause_suspend-Outcome jvm st in
    elim out [
      | inl (_, (seen, is, none_left, snap)) ↦ (
        k,
        omega (arith, le),
        (λ j lt. busy j (omega arith) lt),
        (seen, is, none_left, snap),
        λ t.
            let s = (ps_thread_pause_suspend jvm st).0 in
            let (r, _) = resume_total s (resumes t) in
            let (_, _, r') = resume_calls-total t s.suspended_threads in
            let snap' : s.suspended_threads ≡ targets (jvm k) = snap ∙ sym (rw is refl) in
            omega (arith, ap (times t) snap'),
        (resume_total (ps_thread_pause_suspend jvm st).0 (resumes 0)).1,
      )
      | inr (inl (no_ok, _, _)) ↦ cc
      | inr (inr (no_ok, _, _, _)) ↦ cc
    ]
