-- ===== src/Bytecode/Bounds.antt =====
-- bytecode.c: no read leaves the buffer, and the loops need no more fuel than they are given.
use jauto_profiler_mcp.Prelude.{
  ℕ, zero, suc, ◌+◌, ◌-◌, ◌*◌, ◌%◌, ◌^◌, ◌≤◌, ◌≡◌, refl, ◌⊎◌, inl, inr, Bool, true, false, not,
  List, [], Option, none, ltb, leb, ◌==◌, length, arith, Bool-cases, Option-cases,
}
use jauto_profiler_mcp.Prelude.Checked.{
  guarded, Checked, fault, fail, ok, done, ◌>>=◌, fail_if, read, read_bytes, IsSafe, IsSafe-bind,
  Any, read-IsSafe, read_bytes-IsSafe,
}
use jauto_profiler_mcp.Bytecode.{
  Memory, Name, Pool, Header, read_u2, read_u4, fixed_size, parse_utf8, parse_cp_body, skip_each,
  skip_attributes, pool_loop, field_loop, add_method, method_loop, parse_members, parse_header,
  bc_extract_methods,
}

module _ (buf : List ℕ) where
  -- a position behind which only the end of the buffer may come
  abbrev pub Inside : ℕ → Type 0
  Inside pos = pos ≤ length buf

  read_u2-IsSafe : (p : ℕ) → p + 2 ≤ length buf → IsSafe Any (read_u2 buf p)
  unfolding read_u2
  read_u2-IsSafe p le = IsSafe-bind Any Any (read buf p) _ (read-IsSafe buf p (omega arith)) (λ a d.
      IsSafe-bind Any Any (read buf (p + 1)) _ (read-IsSafe buf (p + 1) (omega arith))
        (λ b d'. done))

  read_u4-IsSafe : (p : ℕ) → p + 4 ≤ length buf → IsSafe Any (read_u4 buf p)
  unfolding read_u4
  read_u4-IsSafe p le = IsSafe-bind Any Any (read buf p) _ (read-IsSafe buf p (omega arith)) (λ a d.
      IsSafe-bind Any Any (read buf (p + 1)) _ (read-IsSafe buf (p + 1) (omega arith)) (λ b d'.
        IsSafe-bind Any Any (read buf (p + 2)) _ (read-IsSafe buf (p + 2) (omega arith)) (λ c d''.
          IsSafe-bind Any Any (read buf (p + 3)) _ (read-IsSafe buf (p + 3) (omega arith))
            (λ e d'''. done))))

  skip_each-IsSafe : (n pos : ℕ) → pos ≤ length buf → IsSafe Inside (skip_each buf n pos)
  unfolding skip_each
  skip_each-IsSafe zero pos le = le
  skip_each-IsSafe (suc n) pos le = guarded Inside (ltb (length buf) (pos + 6)) _ (λ fits.
      IsSafe-bind Any Inside (read_u4 buf (pos + 2)) _ (read_u4-IsSafe (pos + 2) (ground arith))
        (λ len d.
          guarded Inside (ltb (length buf) (pos + (6 + len) % 2 ^ 32)) _
            (λ fits'. skip_each-IsSafe n _ (ground arith))))

  skip_attributes-IsSafe : (pos : ℕ) → IsSafe Inside (skip_attributes buf pos)
  unfolding skip_attributes
  skip_attributes-IsSafe pos = guarded Inside (ltb (length buf) (pos + 2)) _ (λ fits.
      IsSafe-bind Any Inside (read_u2 buf pos) _ (read_u2-IsSafe pos (ground arith))
        (λ n d. skip_each-IsSafe n (pos + 2) (ground arith)))

  -- an entry of the pool that ends inside the buffer
  abbrev Fits : ℕ → ℕ × Option (List ℕ) → Type 0
  Fits remaining e = e.0 ≤ remaining

  parse_utf8-IsSafe :
      (copy_ok : Bool) (pos remaining : ℕ)
      → pos + remaining ≤ length buf
      → IsSafe (Fits remaining) (parse_utf8 copy_ok buf pos remaining)
  unfolding parse_utf8
  parse_utf8-IsSafe copy_ok pos remaining le = guarded (Fits remaining) (ltb remaining 2) _ (λ fits.
      IsSafe-bind Any (Fits remaining) (read_u2 buf pos) _ (read_u2-IsSafe pos (ground arith))
        (λ len d. guarded (Fits remaining) (ltb remaining (2 + len)) _ (λ fits'.
          guarded (Fits remaining) (not copy_ok) _ (λ good.
            IsSafe-bind Any (Fits remaining) (read_bytes buf (pos + 2) len) _
              (read_bytes-IsSafe buf (pos + 2) len (ground arith)) (λ text d'. ground arith)))))

  parse_cp_body-IsSafe :
      (copy_ok : Bool) (pos remaining tag : ℕ)
      → pos + remaining ≤ length buf
      → IsSafe (Fits remaining) (parse_cp_body copy_ok buf pos remaining tag)
  unfolding parse_cp_body
  parse_cp_body-IsSafe copy_ok pos remaining tag le = elim (Bool-cases (tag == 1)) [
    | inl e ↦ rw (e, IsSafe) (parse_utf8-IsSafe copy_ok pos remaining le)
    | inr e ↦
        rw (e, IsSafe)
          (elim (Option-cases (fixed_size tag)) [
            | inl e' ↦ rw (e', IsSafe) done
            | inr (n, e') ↦
                rw (e', IsSafe)
                  (guarded (Fits remaining) (ltb remaining n) _ (λ fits. ground arith))
          ])
  ]

  -- the position behind the pool
  abbrev AtPool : ℕ × Pool → Type 0
  AtPool e = e.0 ≤ length buf

  pool_loop-IsSafe :
      (f : ℕ) (mem : Memory) (cp_count i pos : ℕ) (pool : Pool)
      → pos ≤ length buf
      → cp_count ≤ i + f
      → IsSafe AtPool (pool_loop f mem buf cp_count i pos pool)
  unfolding pool_loop
  pool_loop-IsSafe zero mem cp_count i pos pool le enough = elim (Bool-cases (ltb i cp_count)) [
    | inl e ↦ absurd (ground arith)
    | inr e ↦ rw (e, IsSafe) le
  ]
  pool_loop-IsSafe (suc f) mem cp_count i pos pool le enough = elim (Bool-cases (ltb i cp_count)) [
    | inr e ↦ rw (e, IsSafe) le
    | inl e ↦
        rw (e, IsSafe)
          (guarded AtPool (leb (length buf) pos) _ (λ more.
            IsSafe-bind Any AtPool (read buf pos) _ (read-IsSafe buf pos (ground arith)) (λ tag d.
              IsSafe-bind (Fits (length buf - (pos + 1))) AtPool
                (parse_cp_body (mem.text_ok i) buf (pos + 1) (length buf - (pos + 1)) tag) _
                (parse_cp_body-IsSafe (mem.text_ok i) (pos + 1) _ tag (ground arith))
                (λ entry fits.
                  pool_loop-IsSafe f mem cp_count _ _ _ (ground arith) (ground arith)))))
  ]

  field_loop-IsSafe : (n pos : ℕ) → pos ≤ length buf → IsSafe Inside (field_loop buf n pos)
  unfolding field_loop
  field_loop-IsSafe zero pos le = le
  field_loop-IsSafe (suc n) pos le = guarded Inside (ltb (length buf) (pos + 6)) _ (λ fits.
      IsSafe-bind Inside Inside (skip_attributes buf (pos + 6)) _ (skip_attributes-IsSafe (pos + 6))
        (λ pos' le'. field_loop-IsSafe n pos' le'))

  add_method-IsSafe :
      (mem : Memory) (i cp_count : ℕ) (pool : Pool) (name_idx desc_idx : ℕ) (methods : List Name)
      → IsSafe Any (add_method mem i cp_count pool name_idx desc_idx methods)
  unfolding add_method
  add_method-IsSafe mem i cp_count pool name_idx desc_idx methods = ground arith

  method_loop-IsSafe :
      (mem : Memory) (cp_count : ℕ) (pool : Pool) (n i pos : ℕ) (methods : List Name)
      → IsSafe Any (method_loop mem buf cp_count pool n i pos methods)
  unfolding method_loop
  method_loop-IsSafe mem cp_count pool zero i pos methods = done
  method_loop-IsSafe mem cp_count pool (suc n) i pos methods =
      guarded Any (ltb (length buf) (pos + 6)) _ (λ fits.
        IsSafe-bind Any Any (read_u2 buf (pos + 2)) _ (read_u2-IsSafe (pos + 2) (ground arith))
          (λ a d.
            IsSafe-bind Any Any (read_u2 buf (pos + 4)) _ (read_u2-IsSafe (pos + 4) (ground arith))
              (λ b d'.
                IsSafe-bind Inside Any (skip_attributes buf (pos + 6)) _
                  (skip_attributes-IsSafe (pos + 6))
                  (λ pos' le'.
                    IsSafe-bind Any Any (add_method mem i cp_count pool a b methods) _
                      (add_method-IsSafe mem i cp_count pool a b methods)
                      (λ methods' d''.
                        method_loop-IsSafe mem cp_count pool n (i + 1) pos' methods')))))

  parse_members-IsSafe :
      (cp_count pos : ℕ) (pool : Pool) → IsSafe Any (parse_members buf cp_count pos pool)
  unfolding parse_members
  parse_members-IsSafe cp_count pos pool = guarded Any (ltb (length buf) (pos + 6)) _ (λ g0.
      guarded Any (ltb (length buf) (pos + 8)) _ (λ g1.
        IsSafe-bind Any Any (read_u2 buf (pos + 6)) _ (read_u2-IsSafe (pos + 6) (ground arith))
          (λ faces d. guarded Any (ltb (length buf) (pos + 8 + 2 * faces)) _ (λ g2.
            guarded Any (ltb (length buf) (pos + 8 + 2 * faces + 2)) _ (λ g3.
              IsSafe-bind Any Any (read_u2 buf (pos + 8 + 2 * faces)) _
                (read_u2-IsSafe (pos + 8 + 2 * faces) (ground arith))
                (λ fields d'.
                  members_from cp_count (pos + 8 + 2 * faces + 2) fields pool (ground arith)))))))
    where
      members_from :
          (cp_count p fields : ℕ) (pool : Pool)
          → p ≤ length buf
          → IsSafe {A = Header} Any (
              field_loop buf fields p >>= λ p'. fail_if (ltb (length buf) (p' + 2)) >>= λ g.
              read_u2 buf p' >>= λ m.
              ok (record { cp_count = cp_count; pool = pool; method_count = m; pos = p' + 2 }))
      members_from cp_count p fields pool le =
          IsSafe-bind Inside Any (field_loop buf fields p) _ (field_loop-IsSafe fields p le)
            (λ p' le'. guarded Any (ltb (length buf) (p' + 2)) _ (λ g4.
              IsSafe-bind Any Any (read_u2 buf p') _ (read_u2-IsSafe p' (ground arith))
                (λ m d. done)))

  parse_header-IsSafe : (mem : Memory) → IsSafe Any (parse_header mem buf)
  unfolding parse_header
  parse_header-IsSafe mem = guarded Any (ltb (length buf) 8) _ (λ g0.
      guarded Any (ltb (length buf) 10) _ (λ g1.
        IsSafe-bind Any Any (read_u2 buf 8) _ (read_u2-IsSafe 8 (ground arith)) (λ cp_count d.
          guarded Any (ltb cp_count 1) _ (λ g2. guarded Any (not mem.pool_ok) _ (λ g3.
            IsSafe-bind AtPool Any (pool_loop cp_count mem buf cp_count 1 10 (λ i. none)) _
              (pool_loop-IsSafe cp_count mem cp_count 1 10 (λ i. none) (ground arith) (omega arith))
              (λ e at. parse_members-IsSafe cp_count e.0 e.1))))))

-- an answer of `bc_extract_methods`, for the list that it was given
abbrev Answer : List Name → Checked (Bool × List Name) → Type 0
Answer methods r =
    (success : Bool) × (methods' : List Name) × (r ≡ ok (success, methods'))
    × ((success ≡ true) ⊎ (methods' ≡ methods) ⊎ (methods' ≡ []))

-- Whatever the bytes of the class file and whichever allocations fail, `bc_extract_methods` reads no
-- byte outside the buffer and returns; if it reports an error, the list is as it was or empty.
pub bc_extract_methods-IsSafe :
    (mem : Memory) (buf : List ℕ) (methods : List Name)
    → (success : Bool) × (methods' : List Name) × (bc_extract_methods mem buf methods
        ≡ ok (success, methods'))
      × ((success ≡ true) ⊎ (methods' ≡ methods) ⊎ (methods' ≡ []))
unfolding bc_extract_methods
bc_extract_methods-IsSafe mem buf methods =
    from_header (parse_header mem buf) (parse_header-IsSafe buf mem)
  where
    from_loop :
        (r : Checked (List Name))
        → IsSafe Any r
        → Answer methods (elim r [ fault ↦ fault | fail ↦ ok (false, []) | ok ms ↦ ok (true, ms) ])
    from_loop fault s = elim s [ ]
    from_loop fail s = (false, [], refl, inr (inr refl))
    from_loop (ok ms) s = (true, ms, refl, inl refl)

    from_header :
        (r : Checked Header)
        → IsSafe Any r
        → Answer methods (elim r [
          | fault ↦ fault
          | fail ↦ ok (false, methods)
          | ok h ↦ elim (method_loop mem buf h.cp_count h.pool h.method_count 0 h.pos methods) [
            | fault ↦ fault
            | fail ↦ ok (false, [])
            | ok ms ↦ ok (true, ms)
          ]
        ])
    from_header fault s = elim s [ ]
    from_header fail s = (false, methods, refl, inr (inl refl))
    from_header (ok h) s =
        from_loop (method_loop mem buf h.cp_count h.pool h.method_count 0 h.pos methods)
          (method_loop-IsSafe buf mem h.cp_count h.pool h.method_count 0 h.pos methods)
