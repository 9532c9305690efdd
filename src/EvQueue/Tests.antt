-- ===== src/EvQueue/Tests.antt =====
-- ev-queue.c: the theorems on a queue with one spare node.
use jauto_profiler_mcp.Prelude.{
  ℕ, if◌then◌else◌, ◌==◌, if◌then◌else◌, ◌==◌, ◌≤◌, ◌≡◌, refl, List, [], ◌∷◌, ◌++◌, none, some,
  arith,
}
use jauto_profiler_mcp.HashTab.Order.{times}
use jauto_profiler_mcp.EvQueue.{EvNode, EvQueue, evq_init, evq_push, evq_wait, evq_destroy}
use jauto_profiler_mcp.EvQueue.Fifo.{IsQueue, waiting}
use jauto_profiler_mcp.EvQueue.Trace.{
  EvOp, push, wait, run, start, run-evq_init, drain, drain-waiting, evq_destroy-IsQueue,
}

abbrev store : ℕ → EvNode ℕ
store a = record { data_ = 0; size = 0; next = none }

-- a queue with the messages 7 and 8 in the nodes 1 and 2 and the spare node 3
abbrev two : EvQueue ℕ
two = record {
  head = some 1;
  tail = some 2;
  free_list = some 3;
  nodes = λ a.
      if a == 1
      then record { data_ = 7; size = 4; next = some 2 }
      else if a == 2
      then record { data_ = 8; size = 5; next = none }
      else store a;
}

abbrev used : List ℕ
used = 1 ∷ 2 ∷ []

abbrev spares : List ℕ
spares = 3 ∷ []

two-IsQueue : IsQueue two used spares
two-IsQueue = ((refl, (refl, refl)), refl, (refl, refl), λ s. ground arith)

drain-waiting_example : drain 2 two ≡ (7, 4) ∷ (8, 5) ∷ []
drain-waiting_example = drain-waiting used two spares two-IsQueue

evq_destroy-IsQueue_example :
    (evq_destroy 3 two ≡ some (1 ∷ 2 ∷ 3 ∷ [])) × ((s : ℕ) → times s (1 ∷ 2 ∷ 3 ∷ []) ≤ 1)
evq_destroy-IsQueue_example =
    evq_destroy-IsQueue two used spares 3 two-IsQueue (omega arith) (omega arith)

-- two pushes, the second with a node from `malloc`, and two waits
abbrev ops : List (EvOp ℕ)
ops = push none 7 4 ∷ push (some 5) 8 5 ∷ wait ∷ wait ∷ wait ∷ push none 9 6 ∷ []

run-evq_init_example :
    (l f : List ℕ) × IsQueue (run ops (start store (some 1 ∷ none ∷ []))).queue l f
    × ((run ops (start store (some 1 ∷ none ∷ []))).sent
        ≡ (run ops (start store (some 1 ∷ none ∷ []))).received
          ++ waiting (run ops (start store (some 1 ∷ none ∷ []))).queue l)
run-evq_init_example = run-evq_init store (some 1 ∷ none ∷ []) ops (refl, (refl, tt))

run_received : (run ops (start store (some 1 ∷ none ∷ []))).received ≡ (7, 4) ∷ (8, 5) ∷ []
unfolding evq_init evq_push evq_wait
run_received = refl
