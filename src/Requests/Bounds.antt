-- ===== src/Requests/Bounds.antt =====
-- ps-uif-handler.c: no request reads behind the body of its message.
use jauto_profiler_mcp.Prelude.{
  ℕ, ◌+◌, ◌-◌, ◌≤◌, ◌≡◌, refl, ◌⊎◌, inl, inr, Bool, true, false, not, List, ltb, ◌==◌,
  if◌then◌else◌, length, arith,
}
use jauto_profiler_mcp.Prelude.Checked.{
  Checked, fault, fail, ok, done, read, read_bytes, IsSafe, IsSafe-bind, Any, guarded, read-IsSafe,
  read_bytes-IsSafe,
}
use jauto_profiler_mcp.Requests.{
  Request, instrument_method, deinstrument_method, Memory, load_u2, load_u4, load_u8,
  handle_class_methods, parse_method, handle_instrument_method, handle_deinstrument_method,
  handle_instrument_line, handle_deinstrument_by_id, ps_uif_handler,
}

module _ (body : List ℕ) where
  load_u2-IsSafe : (p : ℕ) → p + 2 ≤ length body → IsSafe Any (load_u2 body p)
  unfolding load_u2
  load_u2-IsSafe p le =
      IsSafe-bind Any Any (read body p) _ (read-IsSafe body p (omega arith)) (λ a d.
        IsSafe-bind Any Any (read body (p + 1)) _ (read-IsSafe body (p + 1) (omega arith))
          (λ b d'. done))

  load_u4-IsSafe : (p : ℕ) → p + 4 ≤ length body → IsSafe Any (load_u4 body p)
  unfolding load_u4
  load_u4-IsSafe p le =
      IsSafe-bind Any Any (load_u2 body p) _ (load_u2-IsSafe p (omega arith)) (λ a d.
        IsSafe-bind Any Any (load_u2 body (p + 2)) _ (load_u2-IsSafe (p + 2) (omega arith))
          (λ b d'. done))

  load_u8-IsSafe : (p : ℕ) → p + 8 ≤ length body → IsSafe Any (load_u8 body p)
  unfolding load_u8
  load_u8-IsSafe p le =
      IsSafe-bind Any Any (load_u4 body p) _ (load_u4-IsSafe p (omega arith)) (λ a d.
        IsSafe-bind Any Any (load_u4 body (p + 4)) _ (load_u4-IsSafe (p + 4) (omega arith))
          (λ b d'. done))

  handle_class_methods-IsSafe : (mem : Memory) → IsSafe Any (handle_class_methods mem body)
  unfolding handle_class_methods
  handle_class_methods-IsSafe mem = guarded Any (ltb (length body) 2) _ (λ g0.
      IsSafe-bind Any Any (load_u2 body 0) _ (load_u2-IsSafe 0 (ground arith)) (λ len d.
        guarded Any (ltb (length body) (2 + len)) _ (λ g1. guarded Any (not mem.first_ok) _ (λ g2.
          IsSafe-bind Any Any (read_bytes body 2 len) _
            (read_bytes-IsSafe body 2 len (ground arith)) (λ name d'. done)))))

  parse_method-IsSafe :
      (request : List ℕ → List ℕ → Request) (mem : Memory)
      → IsSafe Any (parse_method request mem body)
  unfolding parse_method
  parse_method-IsSafe request mem = guarded Any (ltb (length body) 2) _ (λ g0.
      IsSafe-bind Any Any (load_u2 body 0) _ (load_u2-IsSafe 0 (ground arith)) (λ c d.
        guarded Any (ltb (length body) (2 + c + 2)) _ (λ g1.
          IsSafe-bind Any Any (load_u2 body (2 + c)) _ (load_u2-IsSafe (2 + c) (ground arith))
            (λ s d'. guarded Any (ltb (length body) (2 + c + 2 + s)) _ (λ g2.
              guarded Any (not mem.first_ok) _ (λ g3.
                IsSafe-bind Any Any (read_bytes body 2 c) _
                  (read_bytes-IsSafe body 2 c (ground arith))
                  (λ name d''. guarded Any (not mem.second_ok) _ (λ g4.
                    IsSafe-bind Any Any (read_bytes body (2 + c + 2) s) _
                      (read_bytes-IsSafe body (2 + c + 2) s (ground arith))
                      (λ sig d'''. done)))))))))

  handle_instrument_line-IsSafe : IsSafe Any (handle_instrument_line body)
  unfolding handle_instrument_line
  handle_instrument_line-IsSafe = guarded Any (ltb (length body) 8) _ (λ g0.
      guarded Any (ltb (length body - 8) 2) _ (λ g1.
        IsSafe-bind Any Any (load_u2 body 8) _ (load_u2-IsSafe 8 (ground arith)) (λ e d.
          guarded Any (ltb (length body - 8) (2 + e)) _ (λ g2.
            guarded Any (ltb (length body - 8 - (2 + e)) 2) _ (λ g3.
              IsSafe-bind Any Any (load_u2 body (8 + (2 + e))) _
                (load_u2-IsSafe (8 + (2 + e)) (ground arith))
                (λ x d'. guarded Any (ltb (length body - 8 - (2 + e)) (2 + x)) _ (λ g4.
                  IsSafe-bind Any Any (read_bytes body 10 e) _
                    (read_bytes-IsSafe body 10 e (ground arith))
                    (λ ent d2.
                      IsSafe-bind Any Any (read_bytes body (8 + (2 + e) + 2) x) _
                        (read_bytes-IsSafe body (8 + (2 + e) + 2) x (ground arith))
                        (λ ex d3.
                          IsSafe-bind Any Any (load_u4 body 0) _ (load_u4-IsSafe 0 (ground arith))
                            (λ l0 d4.
                              IsSafe-bind Any Any (load_u4 body 4) _
                                (load_u4-IsSafe 4 (ground arith)) (λ l1 d5. done)))))))))))

  handle_deinstrument_by_id-IsSafe : IsSafe Any (handle_deinstrument_by_id body)
  unfolding handle_deinstrument_by_id
  handle_deinstrument_by_id-IsSafe = guarded Any (ltb (length body) 8) _ (λ g0.
      IsSafe-bind Any Any (load_u8 body 0) _ (load_u8-IsSafe 0 (ground arith)) (λ id d. done))

  either :
      (b : Bool) (x y : Checked Request)
      → IsSafe Any x
      → IsSafe Any y
      → IsSafe Any (if b then x else y)
  either true x y hx hy = hx
  either false x y hx hy = hy

  dispatch-IsSafe : (mem : Memory) (type : ℕ) → IsSafe Any (ps_uif_handler mem type body)
  unfolding ps_uif_handler handle_instrument_method handle_deinstrument_method
  dispatch-IsSafe mem type = either (type == 0) _ _ done (
      either (type == 2) _ _ (handle_class_methods-IsSafe mem) (
        either (type == 4) _ _ (parse_method-IsSafe instrument_method mem) (
          either (type == 6) _ _ done (
            either (type == 8) _ _ (parse_method-IsSafe deinstrument_method mem) (
              either (type == 10) _ _ done (
                either (type == 11) _ _ done (
                  either (type == 13) _ _ done (
                    either (type == 15) _ _ done (
                      either (type == 17) _ _ done (
                        either (type == 19) _ _ handle_deinstrument_by_id-IsSafe (
                          either (type == 21) _ _ handle_instrument_line-IsSafe
                            (either (type == 23) _ _ done done))))))))))))

-- Whatever the type and the bytes of a message and whichever allocations fail, `ps_uif_handler`
-- reads nothing behind the body: it returns an error or sends one request.
pub ps_uif_handler-IsSafe :
    (mem : Memory) (type : ℕ) (body : List ℕ)
    → (ps_uif_handler mem type body ≡ fail)
      ⊎ ((r : Request) × (ps_uif_handler mem type body ≡ ok r))
ps_uif_handler-IsSafe mem type body =
    answer (ps_uif_handler mem type body) (dispatch-IsSafe body mem type)
  where
    answer : (c : Checked Request) → IsSafe Any c → (c ≡ fail) ⊎ ((r : Request) × (c ≡ ok r))
    answer fault s = elim s [ ]
    answer fail s = inl refl
    answer (ok r) s = inr (r, refl)
