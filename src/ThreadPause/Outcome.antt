-- ===== src/ThreadPause/Outcome.antt =====
-- ps-thread-state.c: what `ps_thread_pause_suspend` returns and what it leaves, over all rounds.
use jauto_profiler_mcp.Prelude.{
  ℕ, zero, suc, ◌+◌, ◌≤◌, ◌<◌, ◌≡◌, refl, ◌∙◌, sym, subst, ◌⊎◌, inl, inr, List, [], ◌∷◌, ◌++◌, none,
  some, if◌then◌else◌, arith, Bool-cases, ◌==◌,
}
use jauto_profiler_mcp.ThreadPause.{
  Seen, Round, ThreadPause, suspend_thread_list, RoundResult, done, again, failed, SuspendResult,
  suspend_ok, suspend_race, suspend_error, classify_thread, build_snapshot, suspend_new_threads,
  convergence_check, suspend_rounds, ps_thread_pause_suspend,
}
use jauto_profiler_mcp.ThreadPause.Partition.{
  is_held, is_running, select, all_held, HasFailed, IsBusy, IsQuiet, build_snapshot_lem, list_cases,
  fetch_threads_lem,
}

-- After an error the snapshot is the one before, or empty.
abbrev pub KeptOrEmpty : ThreadPause → ThreadPause → Type 0
KeptOrEmpty st st' = (st'.suspended_threads ≡ st.suspended_threads) ⊎ (st'.suspended_threads ≡ [])

-- The result 0, -1 or 1 of a round, where `Going` holds of a round with more to suspend.
abbrev RoundOutcome :
    (Going : Type 0) (r : Round) (st : ThreadPause) (x : ThreadPause × RoundResult) → Type 0
RoundOutcome Going r st x =
    (x.1 ≡ done) × IsQuiet r x.0.suspended_threads
    ⊎ (x.1 ≡ failed) × HasFailed r × KeptOrEmpty st x.0
    ⊎ (x.1 ≡ again) × IsBusy r × Going

suspend_new_threads-RoundOutcome :
    (r : Round) (st : ThreadPause)
    → RoundOutcome
        ((suspend_new_threads r st).0.suspended_threads ≡ st.suspended_threads)
        r
        st
        (suspend_new_threads r st)
unfolding suspend_new_threads
suspend_new_threads-RoundOutcome r st = elim (fetch_threads_lem r) [
  | inl (e, bad) ↦
      by_equation (st, failed) (rw (e, suspend_new_threads) refl) (inr (inl (refl, bad, inl refl)))
  | inr (seen, is, e) ↦ elim (list_cases (select is_running seen)) [
    | inl none_left ↦
        let built = build_snapshot r (select is_held seen) st in
        by_equation (built.0, if built.1 then done else failed)
          (rw (e, suspend_new_threads) (rw none_left refl))
          (elim (build_snapshot_lem r (select is_held seen) st) [
            | inl (a, b) ↦ inl (rw a refl, (seen, is, none_left, b ∙ all_held seen none_left))
            | inr (a, bad, b) ↦ inr (inl (rw a refl, bad, inr b))
          ])
    | inr (t, ts, some_left) ↦
        let more = record st { calls = st.calls ++ suspend_thread_list (t ∷ ts) ∷ [] } in
        elim (Bool-cases r.results_ok) [
          | inl good ↦
              by_equation (more, again) (rw (e, suspend_new_threads) (rw (some_left, good) refl))
                (inr (inr (refl, (seen, is, λ e. cc), refl)))
          | inr bad ↦
              by_equation (st, failed) (rw (e, suspend_new_threads) (rw (some_left, bad) refl))
                (inr (inl (refl, inr (inr (inl bad)), inl refl)))
        ]
  ]
]
  where
    by_equation :
        (x : ThreadPause × RoundResult)
        → suspend_new_threads r st ≡ x
        → RoundOutcome (x.0.suspended_threads ≡ st.suspended_threads) r st x
        → RoundOutcome
            ((suspend_new_threads r st).0.suspended_threads ≡ st.suspended_threads)
            r
            st
            (suspend_new_threads r st)
    by_equation x eq =
        subst (λ x. RoundOutcome (x.0.suspended_threads ≡ st.suspended_threads) r st x) (sym eq)

abbrev pub IsSnapshot : Round → List ℕ → Type 0
IsSnapshot r ts = (seen : List Seen) × (r.threads ≡ some seen) × (ts ≡ select is_held seen)

convergence_check-RoundOutcome :
    (r : Round) (st : ThreadPause)
    → RoundOutcome
        (IsSnapshot r (convergence_check r st).0.suspended_threads)
        r
        st
        (convergence_check r st)
unfolding convergence_check
convergence_check-RoundOutcome r st = elim (fetch_threads_lem r) [
  | inl (e, bad) ↦
      by_equation (st, failed) (rw (e, convergence_check) refl) (inr (inl (refl, bad, inl refl)))
  | inr (seen, is, e) ↦
      let built = build_snapshot r (select is_held seen) st in
      let left : RoundResult = elim (select is_running seen) [ [] ↦ done | t ∷ ts ↦ again ] in
      by_equation (built.0, if built.1 then left else failed) (rw (e, convergence_check) refl)
        (elim (build_snapshot_lem r (select is_held seen) st) [
          | inr (a, bad, b) ↦ inr (inl (rw a refl, bad, inr b))
          | inl (a, b) ↦ elim (list_cases (select is_running seen)) [
            | inl none_left ↦
                inl (rw a (rw none_left refl), (seen, is, none_left, b ∙ all_held seen none_left))
            | inr (t, ts, some_left) ↦
                inr (inr (rw a (rw some_left refl), (seen, is, λ e. cc), (seen, is, b)))
          ]
        ])
]
  where
    by_equation :
        (x : ThreadPause × RoundResult)
        → convergence_check r st ≡ x
        → RoundOutcome (IsSnapshot r x.0.suspended_threads) r st x
        → RoundOutcome
            (IsSnapshot r (convergence_check r st).0.suspended_threads)
            r
            st
            (convergence_check r st)
    by_equation x eq =
        subst (λ x. RoundOutcome (IsSnapshot r x.0.suspended_threads) r st x) (sym eq)

-- the outcome of the rounds from `i` on, of which `n` suspend and the last only looks
abbrev pub Outcome : (ℕ → Round) → ℕ → ℕ → ThreadPause → ThreadPause × SuspendResult → Type 0
Outcome jvm i n st x =
    (k : ℕ) × (i ≤ k)
    × (k ≤ i + n)
    × ((j : ℕ) → i ≤ j → j < k → IsBusy (jvm j))
    × ((x.1 ≡ suspend_ok) × IsQuiet (jvm k) x.0.suspended_threads
        ⊎ (x.1 ≡ suspend_error) × HasFailed (jvm k) × KeptOrEmpty st x.0
        ⊎ (x.1 ≡ suspend_race)
          × (k ≡ i + n)
          × IsBusy (jvm k)
          × IsSnapshot (jvm k) x.0.suspended_threads)

suspend_rounds-Outcome :
    (n : ℕ) (jvm : ℕ → Round) (i : ℕ) (st : ThreadPause)
    → Outcome jvm i n st (suspend_rounds n jvm i st)
unfolding suspend_rounds
suspend_rounds-Outcome zero jvm i st = elim (convergence_check-RoundOutcome (jvm i) st) [
  | inl (a, quiet) ↦
      (i, omega arith, omega arith, nothing, inl (rw (a, suspend_rounds) refl, quiet))
  | inr (inl (a, bad, kept)) ↦
      (i, omega arith, omega arith, nothing, inr (inl (rw (a, suspend_rounds) refl, bad, kept)))
  | inr (inr (a, busy, snap)) ↦ (
    i,
    omega arith,
    omega arith,
    nothing,
    inr (inr (rw (a, suspend_rounds) refl, omega arith, busy, snap)),
  )
]
  where
    nothing : (j : ℕ) → i ≤ j → j < i → IsBusy (jvm j)
    nothing j le lt = absurd (omega arith)
suspend_rounds-Outcome (suc n) jvm i st =
    let r = suspend_new_threads (jvm i) st in
    elim (suspend_new_threads-RoundOutcome (jvm i) st) [
      | inl (a, quiet) ↦
          by_equation (r.0, suspend_ok) (rw (a, suspend_rounds) refl)
            (i, omega arith, omega arith, nothing, inl (refl, quiet))
      | inr (inl (a, bad, kept)) ↦
          by_equation (r.0, suspend_error) (rw (a, suspend_rounds) refl)
            (i, omega arith, omega arith, nothing, inr (inl (refl, bad, kept)))
      | inr (inr (a, busy, same)) ↦
          by_equation (suspend_rounds n jvm (i + 1) r.0) (rw (a, suspend_rounds) refl) (
            later busy same (suspend_rounds n jvm (i + 1) r.0)
              (suspend_rounds-Outcome n jvm (i + 1) r.0))
    ]
  where
    nothing : (j : ℕ) → i ≤ j → j < i → IsBusy (jvm j)
    nothing j le lt = absurd (omega arith)

    by_equation :
        (x : ThreadPause × SuspendResult)
        → suspend_rounds (suc n) jvm i st ≡ x
        → Outcome jvm i (suc n) st x
        → Outcome jvm i (suc n) st (suspend_rounds (suc n) jvm i st)
    by_equation x eq = subst (Outcome jvm i (suc n) st) (sym eq)

    later :
        IsBusy (jvm i)
        → (suspend_new_threads (jvm i) st).0.suspended_threads ≡ st.suspended_threads
        → (x : ThreadPause × SuspendResult)
        → Outcome jvm (i + 1) n (suspend_new_threads (jvm i) st).0 x
        → Outcome jvm i (suc n) st x
    later busy same x (k, le, le', before, out) = (
      k,
      omega arith,
      omega arith,
      (λ j ge lt. elim (Bool-cases (j == i)) [
        | inl e ↦ subst (λ j. IsBusy (jvm j)) (ground arith) busy
        | inr e ↦ before j (ground arith) lt
      ]),
      elim out [
        | inl ok ↦ inl ok
        | inr (inl (a, bad, inl kept)) ↦ inr (inl (a, bad, inl (kept ∙ same)))
        | inr (inl (a, bad, inr empty)) ↦ inr (inl (a, bad, inr empty))
        | inr (inr (a, last, more, snap)) ↦ inr (inr (a, omega arith, more, snap))
      ],
    )

-- What `ps_thread_pause_suspend` returns and leaves, for all answers of the JVM. All rounds before
-- some round `k`, at most 8, find a thread of the application that runs. In round `k` none runs: the
-- result is `PS_SUSPEND_OK` and the snapshot is all threads of the application. Or a call fails in
-- it: the result is `PS_SUSPEND_ERROR` and the snapshot is the one before or empty. Or it is the last,
-- and a thread runs: the result is `PS_SUSPEND_RACE` and the snapshot is the suspended threads.
pub ps_thread_pause_suspend-Outcome :
    (jvm : ℕ → Round) (st : ThreadPause) → Outcome jvm 0 8 st (ps_thread_pause_suspend jvm st)
unfolding ps_thread_pause_suspend
ps_thread_pause_suspend-Outcome jvm st = suspend_rounds-Outcome 8 jvm 0 st

abbrev pub targets : Round → List ℕ
targets r = elim r.threads [ none ↦ [] | some seen ↦ select classify_thread seen ]
