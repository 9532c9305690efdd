-- ===== src/EvQueue/Trace.antt =====
-- ev-queue.c: whole lives of a queue, from `evq_init` through any sequence of pushes and waits to
-- `evq_destroy`. An operation is one step, since it runs under the mutex.
use jauto_profiler_mcp.Prelude.{
  ℕ, zero, suc, ◌+◌, ◌≤◌, ◌<◌, ◌≡◌, refl, ap, ◌∙◌, sym, subst, true, List, [], ◌∷◌, ◌++◌, Option,
  none, some, if◌then◌else◌, arith, inl, inr, drop, length, append_assoc, append-nil,
}
use jauto_profiler_mcp.HashTab.Order.{times, first}
use jauto_profiler_mcp.HashTab.{is_at}
use jauto_profiler_mcp.EvQueue.{
  EvNode, EvQueue, set_next, return_node, add_spare, evq_init, evq_push, evq_wait, free_nodes,
  evq_destroy,
}
use jauto_profiler_mcp.EvQueue.Chain.{Chain, Chain-put, times-append}
use jauto_profiler_mcp.EvQueue.Fifo.{IsQueue, waiting, evq_push_lem, evq_wait_lem, to_list}

-- one call of a thread, a push with the answer of `malloc`
pub data EvOp (D : Type 0) : Type 0 where
  push : Option ℕ → D → ℕ → EvOp D
  wait : EvOp D

-- `malloc` never returns a block that is in use; no block is freed before `evq_destroy`
abbrev pub IsMalloc : List ℕ → List (Option ℕ) → Type 0
IsMalloc used [] = Unit
IsMalloc used (none ∷ fs) = IsMalloc used fs
IsMalloc used (some n ∷ fs) = (times n used ≡ 0) × IsMalloc (n ∷ used) fs

IsMalloc-rest :
    (fs gs : List (Option ℕ)) (used : List ℕ)
    → IsMalloc used (fs ++ gs)
    → (more : List ℕ) × IsMalloc more gs × ((s : ℕ) → times s used ≤ times s more)
IsMalloc-rest [] gs used m = (used, m, λ s. omega arith)
IsMalloc-rest (none ∷ fs) gs used m = IsMalloc-rest fs gs used m
IsMalloc-rest (some n ∷ fs) gs used (new, m) =
    let (more, k, h) = IsMalloc-rest fs gs (n ∷ used) m in (more, k, λ s. ground (arith, h s))

-- a life of the queue: the messages sent, the messages received, and the queue. A `wait` that
-- sleeps changes nothing.
pub record Life (D : Type 0) : Type 0 where
  pub queue : EvQueue D
  pub sent : List (D × ℕ)
  pub received : List (D × ℕ)

nodes_moved :
    (fresh : Option ℕ) (a s : ℕ) (l f : List ℕ)
    → is_at (first (f ++ to_list fresh)) a ≡ true
    → times s (l ++ a ∷ []) + times s (drop 1 f) ≤ times s l + times s f + times s (to_list fresh)
nodes_moved none a s l [] e = cc
nodes_moved (some n) a s l [] e = ground (arith, times-append s l (a ∷ []))
nodes_moved fresh a s l (b ∷ f) e = ground (arith, times-append s l (a ∷ []))

module _ {D : Type 0} where
  return_node-IsQueue :
      (q : EvQueue D) (n : ℕ) (l f : List ℕ)
      → IsQueue q l f
      → times n l + times n f ≡ 0
      → IsQueue (return_node q n) l (n ∷ f)
  unfolding return_node
  return_node-IsQueue q n l f (c, t, cf, nd) out = (
    Chain-put q.nodes n _ q.head l (omega (arith, out)) c,
    t,
    (
      refl,
      subst (λ p. Chain (set_next q.nodes n q.free_list) p f) (ground arith)
          (Chain-put q.nodes n _ q.free_list f (omega (arith, out)) cf),
    ),
    λ s. ground (arith, nd s),
  )

  add_spare-IsQueue :
      (fs gs : List (Option ℕ)) (q : EvQueue D) (used f : List ℕ)
      → IsQueue q [] f
      → IsMalloc used (fs ++ gs)
      → ((s : ℕ) → times s f ≤ times s used)
      → (g more : List ℕ) × IsQueue (add_spare fs q) [] g
        × IsMalloc more gs
        × ((s : ℕ) → times s g ≤ times s more)
  unfolding add_spare
  add_spare-IsQueue [] gs q used f ok m h = (f, used, ok, m, h)
  add_spare-IsQueue (none ∷ fs) gs q used f ok m h =
      let (more, k, h') = IsMalloc-rest fs gs used m in
      (f, more, ok, k, λ s. omega (arith, h s, h' s))
  add_spare-IsQueue (some n ∷ fs) gs q used f ok (new, m) h =
      add_spare-IsQueue fs gs (return_node q n) (n ∷ used) (n ∷ f)
        (return_node-IsQueue q n [] f ok (omega (arith, h n, new))) m (λ s. ground (arith, h s))

  -- A loop of `evq_destroy` frees the nodes of the chain in order, with fuel for one round more.
  free_nodes-Chain :
      (l : List ℕ) (h : ℕ → EvNode D) (p : Option ℕ) (fuel : ℕ)
      → Chain h p l
      → length l < fuel
      → free_nodes fuel h p ≡ some l
  unfolding free_nodes
  free_nodes-Chain [] h p (suc fuel) c lt = rw c refl
  free_nodes-Chain (a ∷ l) h p (suc fuel) (e, c) lt =
      rw e (rw (free_nodes-Chain l h (h a).next fuel c (omega (arith, lt))) refl)
  free_nodes-Chain l h p zero c lt = absurd (omega (arith, lt))

  -- `evq_destroy` ends and frees every node of the queue, the queued ones and the spare ones, each
  -- exactly once.
  pub evq_destroy-IsQueue :
      (q : EvQueue D) (l f : List ℕ) (fuel : ℕ)
      → IsQueue q l f
      → length l < fuel
      → length f < fuel
      → (evq_destroy fuel q ≡ some (l ++ f)) × ((s : ℕ) → times s (l ++ f) ≤ 1)
  unfolding evq_destroy free_nodes
  evq_destroy-IsQueue q l f fuel (c, t, cf, nd) hl hf = (
    rw (free_nodes-Chain l q.nodes q.head fuel c hl, evq_destroy)
        (rw (free_nodes-Chain f q.nodes q.free_list fuel cf hf) refl),
    λ s. omega (arith, times-append s l f, nd s),
  )

  abbrev pub step : EvOp D → Life D → Life D
  step (push fresh x size) w =
      let (q, returned) = evq_push fresh w.queue x size in
      record w { queue = q; sent = if returned then w.sent ++ (x, size) ∷ [] else w.sent }
  step wait w = elim (evq_wait w.queue) [
    | none ↦ w
    | some (q, x, size) ↦ record w { queue = q; received = w.received ++ (x, size) ∷ [] }
  ]

  abbrev pub run : List (EvOp D) → Life D → Life D
  run [] w = w
  run (o ∷ os) w = run os (step o w)

  abbrev pub start : (ℕ → EvNode D) → List (Option ℕ) → Life D
  start store spare = record { queue = evq_init store spare; sent = []; received = [] }

  -- what `malloc` answers in the sequence
  abbrev pub answers : List (EvOp D) → List (Option ℕ)
  answers [] = []
  answers (push fresh x size ∷ os) = fresh ∷ answers os
  answers (wait ∷ os) = answers os

  -- The queue is well-formed, its nodes are blocks of `malloc`, and what was received and what waits
  -- is what was sent.
  abbrev pub IsLife : Life D → List ℕ → List ℕ → List ℕ → Type 0
  IsLife w l f used =
      IsQueue w.queue l f
      × ((s : ℕ) → times s l + times s f ≤ times s used)
      × (w.sent ≡ w.received ++ waiting w.queue l)

  push-IsLife :
      (fresh : Option ℕ) (x : D) (size : ℕ) (w : Life D) (l f used : List ℕ)
      → IsLife w l f used
      → ((n : ℕ) → fresh ≡ some n → times n used ≡ 0)
      → (m g : List ℕ) × IsLife (step (push fresh x size) w) m g (to_list fresh ++ used)
  push-IsLife fresh x size w l f used (ok, h, e) new =
      elim (evq_push_lem fresh w.queue x size l f ok (λ n e. omega (arith, h n, new n e))) [
        | inl (_, _, made) ↦
            (l, f, rw made (ok, (λ s. omega (arith, h s, times-append s (to_list fresh) used)), e))
        | inr (a, r, place, made, ok', e') ↦ (
          l ++ a ∷ [],
          drop 1 f,
          rw made (
            ok',
            (λ s.
                omega (
                  arith,
                  h s,
                  times-append s (to_list fresh) used,
                  nodes_moved fresh a s l f place,
                )),
            ap (λ k. k ++ (x, size) ∷ []) e
                ∙ append_assoc w.received (waiting w.queue l) ((x, size) ∷ [])
                ∙ ap (λ k. w.received ++ k) (sym e'),
          ),
        )
      ]

  wait-IsLife :
      (w : Life D) (l f used : List ℕ)
      → IsLife w l f used
      → (m g : List ℕ) × IsLife (step wait w) m g used
  wait-IsLife w l f used (ok, h, e) = elim (evq_wait_lem w.queue l f ok) [
    | inl (_, made) ↦ (l, f, rw (made, step) (ok, h, e))
    | inr (n, m, r, x, size, split, made, ok', e') ↦
        let v : Life D = record w { queue = r; received = w.received ++ (x, size) ∷ [] } in
        let after : step wait w ≡ v = rw (made, step) refl in
        (
          m,
          n ∷ f,
          subst (λ v. IsLife v m (n ∷ f) used) (sym after)
              (
                ok',
                (λ s. ground (arith, h s, ap (times s) split)),
                e
                    ∙ ap (λ k. w.received ++ k) e'
                    ∙ sym (append_assoc w.received ((x, size) ∷ []) (waiting r m)),
              ),
        )
  ]

  run-IsLife :
      (os : List (EvOp D)) (w : Life D) (l f used : List ℕ)
      → IsLife w l f used
      → IsMalloc used (answers os)
      → (m g more : List ℕ) × IsLife (run os w) m g more
  run-IsLife [] w l f used ok m = (l, f, used, ok)
  run-IsLife (push none x size ∷ os) w l f used ok m =
      let (k, g, ok') = push-IsLife none x size w l f used ok (λ n e. cc) in
      run-IsLife os (step (push none x size) w) k g used ok' m
  run-IsLife (push (some n) x size ∷ os) w l f used ok (new, m) =
      let (k, g, ok') = push-IsLife (some n) x size w l f used ok (λ n e. cc) in
      run-IsLife os (step (push (some n) x size) w) k g (n ∷ used) ok' m
  run-IsLife (wait ∷ os) w l f used ok m =
      let (k, g, ok') = wait-IsLife w l f used ok in run-IsLife os (step wait w) k g used ok' m

  -- Messages come out in the order they went in: from `evq_init`, after any sequence of pushes and
  -- waits, what was sent is what was received followed by what still waits, and the queue is
  -- well-formed. The blocks of `malloc` are different.
  pub run-evq_init :
      (store : ℕ → EvNode D) (spare : List (Option ℕ)) (os : List (EvOp D))
      → IsMalloc [] (spare ++ answers os)
      → (l f : List ℕ) × IsQueue (run os (start store spare)).queue l f
        × ((run os (start store spare)).sent
            ≡ (run os (start store spare)).received ++ waiting (run os (start store spare)).queue l)
  unfolding evq_init
  run-evq_init store spare os m =
      let empty : EvQueue D = record {
        head = none;
        tail = none;
        free_list = none;
        nodes = store;
      } in
      let (g, more, ok, k, h) =
        add_spare-IsQueue spare (answers os) empty [] [] (refl, refl, refl, λ s. omega arith) m
          (λ s. omega arith) in
      let (l, f, _, (ok', _, e)) =
        run-IsLife os (start store spare) [] g more (ok, (λ s. omega (arith, h s)), refl) k in
      (l, f, ok', e)

  -- the messages that `n` calls of `evq_wait` return, up to the first that sleeps
  abbrev pub drain : ℕ → EvQueue D → List (D × ℕ)
  drain zero q = []
  drain (suc n) q = elim (evq_wait q) [ none ↦ [] | some (r, x, size) ↦ (x, size) ∷ drain n r ]

  -- Every message arrives: as many calls of `evq_wait` as messages wait return them all, in the order
  -- they were pushed, and none sleeps.
  pub drain-waiting :
      (l : List ℕ) (q : EvQueue D) (f : List ℕ) → IsQueue q l f → drain (length l) q ≡ waiting q l
  drain-waiting [] q f ok = refl
  drain-waiting (a ∷ l) q f ok = elim (evq_wait_lem q (a ∷ l) f ok) [
    | inl (no_node, _) ↦ cc
    | inr (n, m, r, x, size, split, made, ok', e') ↦
        let tail = ap (drop 1) split in
        rw (made, drain)
          (ap (λ k. (x, size) ∷ k)
            (drain-waiting l r (n ∷ f) (subst (λ k. IsQueue r k (n ∷ f)) (sym tail) ok')
              ∙ ap (waiting r) tail))
        ∙ sym e'
  ]

-- `evq_init` makes an empty queue.
pub evq_init-IsQueue :
    {D : Type 0} (store : ℕ → EvNode D) (spare : List (Option ℕ))
    → IsMalloc [] spare
    → (f : List ℕ) × IsQueue (evq_init store spare) [] f
unfolding evq_init
evq_init-IsQueue store spare m =
    let empty : EvQueue _ = record { head = none; tail = none; free_list = none; nodes = store } in
    let (g, _, ok, _, _) =
      add_spare-IsQueue spare [] empty [] [] (refl, refl, refl, λ s. omega arith)
        (subst (IsMalloc []) (sym (append-nil spare)) m) (λ s. omega arith) in
    (g, ok)
