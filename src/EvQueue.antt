-- ===== src/EvQueue.antt =====
-- c-src/main/util/ev-queue.c: the queue of messages between the threads of the agent, a linked list
-- of nodes with a list of spare nodes. Nodes live in a store, a function of the address, and a
-- pointer is an address or NULL. Every operation runs under the mutex, so it is one step; `evq_wait`
-- on an empty queue sleeps on the condition variable, which is the result `none`. An argument
-- `fresh` is what `malloc` returns.
pub mod Chain
pub mod Fifo
pub mod Trace
mod Tests
use jauto_profiler_mcp.Prelude.{
  ℕ, zero, suc, Bool, true, false, List, [], ◌∷◌, ◌++◌, Option, none, some, ◌==◌, if◌then◌else◌,
}

-- EVQ_INITIAL_FREE_NODES
abbrev pub initial_free_nodes : ℕ
initial_free_nodes = 16

-- `struct ev_queue_node`
pub record EvNode (D : Type 0) : Type 0 where
  pub data_ : D
  pub size : ℕ
  pub next : Option ℕ

-- `struct ev_queue`, with the store of its nodes
pub record EvQueue (D : Type 0) : Type 0 where
  pub head : Option ℕ
  pub tail : Option ℕ
  pub free_list : Option ℕ
  pub nodes : ℕ → EvNode D

module _ {D : Type 0} where
  abbrev pub put : (ℕ → EvNode D) → ℕ → EvNode D → ℕ → EvNode D
  put h p n a = if a == p then n else h a

  abbrev pub set_next : (ℕ → EvNode D) → ℕ → Option ℕ → ℕ → EvNode D
  set_next h p x = put h p (record (h p) { next = x })

  -- `alloc_node`: a spare node, or one from `malloc`
  unfoldable pub alloc_node : Option ℕ → EvQueue D → Option (ℕ × EvQueue D)
  alloc_node fresh q = elim q.free_list [
    | some n ↦ some (n, record q { free_list = (q.nodes n).next })
    | none ↦ elim fresh [ none ↦ none | some n ↦ some (n, q) ]
  ]

  -- `return_node`
  unfoldable pub return_node : EvQueue D → ℕ → EvQueue D
  return_node q n = record q { nodes = set_next q.nodes n q.free_list; free_list = some n }

  -- the loop of `evq_init`, which stops when `malloc` fails
  unfoldable pub add_spare : List (Option ℕ) → EvQueue D → EvQueue D
  unfolding return_node
  add_spare [] q = q
  add_spare (none ∷ fs) q = q
  add_spare (some n ∷ fs) q = add_spare fs (return_node q n)

  -- `evq_init`, where the queue and its mutex could be made, with the answers of `malloc`
  unfoldable pub evq_init : (ℕ → EvNode D) → List (Option ℕ) → EvQueue D
  unfolding add_spare
  evq_init store fresh =
      add_spare fresh (record { head = none; tail = none; free_list = none; nodes = store })

  -- `evq_push` from the node on: fill it and link it behind the tail
  unfoldable pub link_node : EvQueue D → ℕ → D → ℕ → EvQueue D
  link_node q n x size =
      let nodes = put q.nodes n (record { data_ = x; size = size; next = none }) in
      elim q.tail [
        | none ↦ record q { nodes = nodes; head = some n; tail = some n }
        | some t ↦ record q { nodes = set_next nodes t (some n); tail = some n }
      ]

  -- `evq_push`: the queue, and whether it returned 0
  unfoldable pub evq_push : Option ℕ → EvQueue D → D → ℕ → EvQueue D × Bool
  unfolding alloc_node link_node
  evq_push fresh q x size = elim (alloc_node fresh q) [
    | none ↦ (q, false)
    | some (n, q') ↦ (link_node q' n x size, true)
  ]

  -- `evq_wait`: the queue, the data and the size, or `none` while it sleeps
  unfoldable pub evq_wait : EvQueue D → Option (EvQueue D × D × ℕ)
  unfolding return_node
  evq_wait q = elim q.head [
    | none ↦ none
    | some n ↦
        let node = q.nodes n in
        let q' : EvQueue D = record q {
          head = node.next;
          tail = elim node.next [ none ↦ none | some m ↦ q.tail ];
        } in
        some (return_node q' n, node.data_, node.size)
  ]

  -- a loop of `evq_destroy`: the nodes it frees, in order, or `none` when the fuel is used up
  unfoldable pub free_nodes : ℕ → (ℕ → EvNode D) → Option ℕ → Option (List ℕ)
  free_nodes zero h p = none
  free_nodes (suc fuel) h none = some []
  free_nodes (suc fuel) h (some n) = elim (free_nodes fuel h (h n).next) [
    | none ↦ none
    | some rest ↦ some (n ∷ rest)
  ]

  -- `evq_destroy`
  unfoldable pub evq_destroy : ℕ → EvQueue D → Option (List ℕ)
  unfolding free_nodes
  evq_destroy fuel q = elim (free_nodes fuel q.nodes q.head) [
    | none ↦ none
    | some used ↦ elim (free_nodes fuel q.nodes q.free_list) [
      | none ↦ none
      | some spare ↦ some (used ++ spare)
    ]
  ]
