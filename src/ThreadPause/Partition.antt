-- ===== src/ThreadPause/Partition.antt =====
-- ps-thread-state.c: one round, the threads it finds and the snapshot it builds.
use jauto_profiler_mcp.Prelude.{
  ℕ, ◌≡◌, refl, ap, ◌≢◌, ◌⊎◌, inl, inr, Bool, true, false, not, ◌&&◌, List, [], ◌∷◌, Option, none,
  some, if◌then◌else◌, arith, Bool-cases,
}
use jauto_profiler_mcp.ThreadPause.{
  Seen, Round, ThreadPause, classify_thread, partition, fetch_threads, make_refs, build_snapshot,
}

-- a thread of the application that the JVM reports as suspended, and one that it does not
abbrev pub is_held : Seen → Bool
is_held s = classify_thread s && (s.state_ok && s.state_suspended)

abbrev pub is_running : Seen → Bool
is_running s = classify_thread s && not (s.state_ok && s.state_suspended)

abbrev pub select : (Seen → Bool) → List Seen → List ℕ
select p [] = []
select p (s ∷ ss) = if p s then s.thread ∷ select p ss else select p ss

pub partition-select : (ss : List Seen) → partition ss ≡ (select is_held ss, select is_running ss)
unfolding partition
partition-select [] = refl
partition-select (s ∷ ss) = ground (arith, partition-select ss)

pub all_held :
    (ss : List Seen) → select is_running ss ≡ [] → select is_held ss ≡ select classify_thread ss
all_held [] e = refl
all_held (s ∷ ss) e = ground (arith, all_held ss)

-- something failed: the list of the threads, an allocation or a reference
abbrev pub HasFailed : Round → Type 0
HasFailed r =
    (r.threads ≡ none)
    ⊎ (r.lists_ok ≡ false)
    ⊎ (r.results_ok ≡ false)
    ⊎ (r.realloc_ok ≡ false)
    ⊎ (t : ℕ) × (r.ref_ok t ≡ false)

-- a thread of the application runs
abbrev pub IsBusy : Round → Type 0
IsBusy r = (seen : List Seen) × (r.threads ≡ some seen) × (select is_running seen ≢ [])

-- all threads of the application are suspended, and they are `ts`
abbrev pub IsQuiet : Round → List ℕ → Type 0
IsQuiet r ts =
    (seen : List Seen) × (r.threads ≡ some seen)
    × (select is_running seen ≡ [])
    × (ts ≡ select classify_thread seen)

make_refs_lem :
    (ref_ok : ℕ → Bool) (ts : List ℕ)
    → ((make_refs ref_ok ts).1 ≡ true) × ((make_refs ref_ok ts).0 ≡ ts)
      ⊎ ((make_refs ref_ok ts).1 ≡ false) × ((t : ℕ) × (ref_ok t ≡ false))
unfolding make_refs
make_refs_lem ref_ok [] = inl (refl, refl)
make_refs_lem ref_ok (t ∷ ts) = elim (Bool-cases (ref_ok t)) [
  | inr bad ↦ inr (ground arith, (t, bad))
  | inl good ↦ elim (make_refs_lem ref_ok ts) [
    | inl (a, b) ↦ inl (ground arith, ground arith)
    | inr (a, b) ↦ inr (ground arith, b)
  ]
]

-- A snapshot holds all threads given, or something failed and it is empty.
pub build_snapshot_lem :
    (r : Round) (ts : List ℕ) (st : ThreadPause)
    → ((build_snapshot r ts st).1 ≡ true) × ((build_snapshot r ts st).0.suspended_threads ≡ ts)
      ⊎ ((build_snapshot r ts st).1 ≡ false)
        × HasFailed r
        × ((build_snapshot r ts st).0.suspended_threads ≡ [])
unfolding build_snapshot
build_snapshot_lem r [] st = inl (refl, refl)
build_snapshot_lem r (t ∷ ts) st = elim (Bool-cases r.realloc_ok) [
  | inr bad ↦ inr (ground arith, inr (inr (inr (inl bad))), ground arith)
  | inl good ↦ elim (make_refs_lem r.ref_ok (t ∷ ts)) [
    | inl (a, b) ↦ inl (ground arith, ground arith)
    | inr (a, b) ↦ inr (ground arith, inr (inr (inr (inr b))), ground arith)
  ]
]

pub list_cases : {A : Type 0} (l : List A) → (l ≡ []) ⊎ (a : A) × (k : List A) × (l ≡ a ∷ k)
list_cases [] = inl refl
list_cases (a ∷ l) = inr (a, l, refl)

pub option_cases : {A : Type 0} (x : Option A) → (x ≡ none) ⊎ (a : A) × (x ≡ some a)
option_cases none = inl refl
option_cases (some a) = inr (a, refl)

pub fetch_threads_lem :
    (r : Round)
    → (fetch_threads r ≡ none) × HasFailed r
      ⊎ (seen : List Seen) × (r.threads ≡ some seen)
        × (fetch_threads r ≡ some (select is_held seen, select is_running seen))
unfolding fetch_threads
fetch_threads_lem r = elim (option_cases r.threads) [
  | inl bad ↦ inl (ground arith, inl bad)
  | inr (seen, e) ↦ elim (Bool-cases r.lists_ok) [
    | inr bad ↦ inl (ground arith, inr (inl bad))
    | inl good ↦ inr (seen, e, rw e (rw good (ap some (partition-select seen))))
  ]
]
