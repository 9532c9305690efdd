-- ===== src/EvQueue/Fifo.antt =====
-- ev-queue.c: what each operation does to a well-formed queue. `l` are the addresses of the queued
-- nodes, the oldest first, and `f` those of the spare ones.
use jauto_profiler_mcp.Prelude.{
  ℕ, ◌+◌, ◌≤◌, ◌⊎◌, ◌≡◌, refl, ap, ◌∙◌, sym, true, false, List, [], drop, ◌∷◌, ◌++◌, Option, none,
  some, arith, inl, inr, subst,
}
use jauto_profiler_mcp.HashTab.Order.{times, first}
use jauto_profiler_mcp.HashTab.{is_at}
use jauto_profiler_mcp.EvQueue.{
  EvNode, EvQueue, put, set_next, alloc_node, return_node, link_node, evq_push, evq_wait,
}
use jauto_profiler_mcp.EvQueue.Chain.{
  last_of, Chain, payload, Chain-put, payload-put, payload-put_self, payload-set_next,
  payload-append, Chain-snoc, times-last_of, last-some, last-snoc, times-snoc,
}

abbrev pub to_list : Option ℕ → List ℕ
to_list none = []
to_list (some n) = n ∷ []

module _ {D : Type 0} where
  -- the queue holds the nodes `l` and the spare nodes `f`, no node twice
  abbrev pub IsQueue : EvQueue D → List ℕ → List ℕ → Type 0
  IsQueue q l f =
      Chain q.nodes q.head l
      × (q.tail ≡ last_of none l)
      × Chain q.nodes q.free_list f
      × ((s : ℕ) → times s l + times s f ≤ 1)

  -- the messages that wait
  abbrev pub waiting : EvQueue D → List ℕ → List (D × ℕ)
  waiting q l = payload q.nodes l

  link_node-IsQueue :
      (q : EvQueue D) (n : ℕ) (x : D) (size : ℕ) (l f : List ℕ)
      → IsQueue q l f
      → times n l + times n f ≡ 0
      → IsQueue (link_node q n x size) (l ++ n ∷ []) f
        × (waiting (link_node q n x size) (l ++ n ∷ []) ≡ waiting q l ++ (x, size) ∷ [])
  unfolding link_node
  link_node-IsQueue q n x size [] f (c, t, cf, nd) out =
      let m : EvNode D = record { data_ = x; size = size; next = none } in
      let r : EvQueue D = record q { nodes = put q.nodes n m; head = some n; tail = some n } in
      let made : link_node q n x size ≡ r = rw (t, link_node) refl in
      subst (λ r. IsQueue r (n ∷ []) f × (waiting r (n ∷ []) ≡ (x, size) ∷ [])) (sym made)
        (
          (
            (refl, ground arith),
            refl,
            Chain-put q.nodes n m q.free_list f (omega (arith, out)) cf,
            times-snoc n [] f nd out,
          ),
          payload-put_self q.nodes n m,
        )
  link_node-IsQueue q n x size (a ∷ l) f (c, t, cf, nd) out =
      let (u, e) = last-some a l in
      let inside = times-last_of a u l e in
      let m : EvNode D = record { data_ = x; size = size; next = none } in
      let h = put q.nodes n m in
      let r : EvQueue D = record q { nodes = set_next h u (some n); tail = some n } in
      let made : link_node q n x size ≡ r = rw (t ∙ e, link_node) refl in
      let linked = a ∷ l ++ n ∷ [] in
      subst (λ r. IsQueue r linked f × (waiting r linked ≡ waiting q (a ∷ l) ++ (x, size) ∷ []))
        (sym made)
        (
          (
            Chain-snoc q.nodes n u m q.head (a ∷ l) refl c e (λ s. omega (arith, nd s))
                (omega (arith, out)),
            sym (last-snoc none (a ∷ l) n),
            Chain-put h u _ q.free_list f (omega (arith, nd u))
                (Chain-put q.nodes n m q.free_list f (omega (arith, out)) cf),
            times-snoc n (a ∷ l) f nd out,
          ),
          payload-set_next h u (some n) linked
              ∙ payload-append h (a ∷ l) (n ∷ [])
              ∙ ap (λ r. r ++ payload h (n ∷ []))
                  (payload-put q.nodes n m (a ∷ l) (omega (arith, out)))
              ∙ ap (λ r. payload q.nodes (a ∷ l) ++ r) (payload-put_self q.nodes n m),
        )

  -- What `evq_push` does: without a spare node and without memory it fails and changes nothing;
  -- otherwise it returns 0, the message waits behind the others, and a spare node was used if there
  -- was one.
  pub evq_push_lem :
      (fresh : Option ℕ) (q : EvQueue D) (x : D) (size : ℕ) (l f : List ℕ)
      → IsQueue q l f
      → ((n : ℕ) → fresh ≡ some n → times n l + times n f ≡ 0)
      → ((f ≡ []) × (fresh ≡ none) × (evq_push fresh q x size ≡ (q, false)))
        ⊎ ((n : ℕ) × (r : EvQueue D) × (is_at (first (f ++ to_list fresh)) n ≡ true)
            × (evq_push fresh q x size ≡ (r, true))
            × IsQueue r (l ++ n ∷ []) (drop 1 f)
            × (waiting r (l ++ n ∷ []) ≡ waiting q l ++ (x, size) ∷ []))
  unfolding evq_push alloc_node
  evq_push_lem none q x size l [] (c, t, cf, nd) new = inl (refl, refl, rw cf refl)
  evq_push_lem (some n) q x size l [] (c, t, cf, nd) new =
      let (a, b) = link_node-IsQueue q n x size l [] (c, t, cf, nd) (new n refl) in
      inr (n, link_node q n x size, ground arith, rw cf refl, a, b)
  evq_push_lem fresh q x size l (n ∷ f) (c, t, (e, cf), nd) new =
      let r : EvQueue D = record q { free_list = (q.nodes n).next } in
      let (a, b) =
        link_node-IsQueue r n x size l f (c, t, cf, λ s. omega (arith, nd s))
          (ground (arith, nd n)) in
      inr (n, link_node r n x size, ground arith, rw e refl, a, b)

  tail_after :
      (q : EvQueue D) (n : ℕ) (l : List ℕ)
      → Chain q.nodes (q.nodes n).next l
      → q.tail ≡ last_of none (n ∷ l)
      → elim (q.nodes n).next as (λ _. Option ℕ) [ none ↦ none | some m ↦ q.tail ] ≡ last_of none l
  tail_after q n [] c t = rw c refl
  tail_after q n (b ∷ l) (e, c) t = rw e t

  -- What `evq_wait` does: it sleeps exactly on an empty queue; otherwise it returns the oldest message
  -- and its node becomes a spare one.
  pub evq_wait_lem :
      (q : EvQueue D) (l f : List ℕ)
      → IsQueue q l f
      → ((l ≡ []) × (evq_wait q ≡ none))
        ⊎ ((n : ℕ) × (m : List ℕ) × (r : EvQueue D) × (x : D) × (size : ℕ) × (l ≡ n ∷ m)
            × (evq_wait q ≡ some (r, x, size))
            × IsQueue r m (n ∷ f)
            × (waiting q l ≡ (x, size) ∷ waiting r m))
  unfolding evq_wait return_node
  evq_wait_lem q [] f (c, t, cf, nd) = inl (refl, rw c refl)
  evq_wait_lem q (n ∷ l) f ((e, c), t, cf, nd) =
      let h = set_next q.nodes n q.free_list in
      let r : EvQueue D = record {
        head = (q.nodes n).next;
        tail = last_of none l;
        free_list = some n;
        nodes = h;
      } in
      inr (
        n,
        l,
        r,
        (q.nodes n).data_,
        (q.nodes n).size,
        refl,
        rw e (
            ap (λ t. some ((record r { tail = t }), (q.nodes n).data_, (q.nodes n).size))
              (tail_after q n l c t)),
        (
          Chain-put q.nodes n _ r.head l (ground (arith, nd n)) c,
          refl,
          (
            refl,
            subst (λ p. Chain h p f) (ground arith)
                (Chain-put q.nodes n _ q.free_list f (ground (arith, nd n)) cf),
          ),
          λ s. ground (arith, nd s),
        ),
        ap (λ k. ((q.nodes n).data_, (q.nodes n).size) ∷ k)
            (sym (payload-set_next q.nodes n q.free_list l)),
      )
