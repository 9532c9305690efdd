-- ===== src/UserIf/Framing.antt =====
-- user-if.c: the messages that `handle_client_data` delivers, against the byte stream.
use jauto_profiler_mcp.Prelude.{
  ℕ, zero, suc, ◌+◌, ◌≤◌, ◌<◌, ◌≡◌, refl, ◌∙◌, ◌⊎◌, inl, inr, Bool, true, false, List, [], ◌∷◌,
  ◌++◌, ltb, ◌==◌, length, arith, append-nil, length-append, Bool-cases, ==_iff, ◌≢◌,
}
use jauto_profiler_mcp.Prelude.Checked.{Done, done}
use jauto_profiler_mcp.UserIf.{
  max_body_size, msg_hdr_size, ClientCtx, ReadResult, failed, got, Handled, closed, kept, byte_at,
  body_size, request, deliver, expect_body, handle_client_data,
}

-- a header and the body that it announces
pub record IsFrame (m : List ℕ) : Type 0 where
  pub whole : length m ≡ msg_hdr_size + body_size m
  pub bounded : body_size m ≤ max_body_size

abbrev pub Frames : List (List ℕ) → Type 0
Frames [] = Done
Frames (m ∷ ms) = IsFrame m × Frames ms

abbrev pub concat : List (List ℕ) → List ℕ
concat [] = []
concat (m ∷ ms) = m ++ concat ms

-- a part of a header, or a header and a part of the body that it announces
abbrev pub Partial : List ℕ → ℕ → Type 0
Partial buf expected =
    (length buf < msg_hdr_size) × (expected ≡ msg_hdr_size)
    ⊎ (msg_hdr_size ≤ length buf)
      × (length buf < expected)
      × (expected ≡ msg_hdr_size + body_size buf)
      × (body_size buf ≤ max_body_size)

-- The client asks for bytes that its buffer has room for, and its buffer holds a part of a message.
pub record IsValid (ctx : ClientCtx) : Type 0 where
  pub room : ctx.buf_expected ≤ ctx.buf_alloc
  pub header_room : msg_hdr_size ≤ ctx.buf_alloc
  pub partial : Partial ctx.buf ctx.buf_expected

byte_at-append : (xs ys : List ℕ) (i : ℕ) → i < length xs → byte_at (xs ++ ys) i ≡ byte_at xs i
byte_at-append [] ys i lt = absurd (omega arith)
byte_at-append (x ∷ xs) ys zero lt = refl
byte_at-append (x ∷ xs) ys (suc i) lt = byte_at-append xs ys i (omega arith)

-- The size stands in the header.
body_size-append : (xs ys : List ℕ) → msg_hdr_size ≤ length xs → body_size (xs ++ ys) ≡ body_size xs
unfolding body_size
body_size-append xs ys le = omega (
  arith,
  byte_at-append xs ys 4 (omega arith),
  byte_at-append xs ys 5 (omega arith),
  byte_at-append xs ys 6 (omega arith),
  byte_at-append xs ys 7 (omega arith),
)

-- what a step may do with the bytes `b`: deliver whole messages and keep the rest, or give up at a
-- header that announces too much, or for lack of memory
abbrev pub Cut : Bool → List ℕ → Handled → Type 0
Cut realloc_ok b closed =
    (length b ≡ msg_hdr_size) × ((max_body_size < body_size b) ⊎ (realloc_ok ≡ false))
Cut realloc_ok b (kept ctx out) = IsValid ctx × Frames out × (concat out ++ ctx.buf ≡ b)

deliver-Cut :
    (realloc_ok : Bool) (ctx : ClientCtx)
    → msg_hdr_size ≤ ctx.buf_alloc
    → ctx.buf_expected ≤ ctx.buf_alloc
    → (length ctx.buf < ctx.buf_expected → Partial ctx.buf ctx.buf_expected)
    → (length ctx.buf ≡ ctx.buf_expected → IsFrame ctx.buf)
    → length ctx.buf ≤ ctx.buf_expected
    → Cut realloc_ok ctx.buf (deliver ctx)
unfolding deliver
deliver-Cut realloc_ok ctx alloc room part whole le =
    elim (Bool-cases (length ctx.buf == ctx.buf_expected)) [
      | inl e ↦
          rw (e, Cut)
            (
              record { room = alloc; header_room = alloc; partial = inl (omega arith, refl) },
              (whole ((==_iff _ _).0 e), done),
              append-nil _ ∙ append-nil _,
            )
      | inr e ↦
          rw (e, Cut)
            (record { room = room; header_room = alloc; partial = part (ground arith) }, done, refl)
    ]

expect_body-Cut :
    (realloc_ok : Bool) (ctx : ClientCtx)
    → msg_hdr_size ≤ ctx.buf_alloc
    → ctx.buf_expected ≡ msg_hdr_size
    → length ctx.buf ≡ msg_hdr_size
    → Cut realloc_ok ctx.buf (expect_body realloc_ok ctx)
unfolding expect_body
expect_body-Cut realloc_ok ctx alloc expected header =
    elim (Bool-cases (ltb max_body_size (body_size ctx.buf))) [
      | inl e ↦ rw (e, Cut) (header, inl (ground arith))
      | inr e ↦
          rw (e, Cut)
            (elim (Bool-cases (ltb 0 (body_size ctx.buf))) [
              | inr e' ↦
                  rw (e', Cut)
                    (deliver-Cut realloc_ok ctx alloc (omega arith) (λ lt. absurd (omega arith))
                      (λ same. record { whole = ground arith; bounded = ground arith })
                      (omega arith))
              | inl e' ↦
                  rw (e', Cut)
                    (elim (Bool-cases (ltb ctx.buf_alloc (msg_hdr_size + body_size ctx.buf))) [
                      | inr e2 ↦ rw (e2, Cut) (more e e' ctx.buf_alloc alloc (ground arith))
                      | inl e2 ↦
                          rw (e2, Cut)
                            (elim (Bool-cases realloc_ok) [
                              | inl e3 ↦
                                  rw (e3, Cut)
                                    (more e e' (msg_hdr_size + body_size ctx.buf) (omega arith)
                                      (omega arith))
                              | inr e3 ↦ rw (e3, Cut) (header, inr e3)
                            ])
                    ])
            ])
    ]
  where
    more :
        ltb max_body_size (body_size ctx.buf) ≡ false
        → ltb 0 (body_size ctx.buf) ≡ true
        → (alloc : ℕ) → msg_hdr_size ≤ alloc
        → msg_hdr_size + body_size ctx.buf ≤ alloc
        → Cut realloc_ok ctx.buf (
            deliver
              (record ctx { buf_alloc = alloc; buf_expected = msg_hdr_size + body_size ctx.buf }))
    more e e' alloc le room =
        deliver-Cut realloc_ok
          (record ctx { buf_alloc = alloc; buf_expected = msg_hdr_size + body_size ctx.buf }) le
          room (λ lt. inr (omega arith, lt, refl, ground arith)) (λ same. absurd (ground arith))
          (ground arith)

-- A read that returns bytes: at least one, and no more than were asked for.
abbrev pub Answers : ClientCtx → ReadResult → Type 0
Answers ctx (failed again) = Done
Answers ctx (got bytes) = (0 < length bytes) × (length bytes ≤ request ctx)

pub got-Cut :
    (realloc_ok : Bool) (ctx : ClientCtx) (bytes : List ℕ)
    → IsValid ctx
    → 0 < length bytes
    → length bytes ≤ request ctx
    → Cut realloc_ok (ctx.buf ++ bytes) (handle_client_data realloc_ok ctx (got bytes))
unfolding handle_client_data request
got-Cut realloc_ok ctx bytes v pos le =
    elim (Bool-cases (length (ctx.buf ++ bytes) == msg_hdr_size)) [
      | inl e ↦
          rw (e, Cut)
            (expect_body-Cut realloc_ok (record ctx { buf = ctx.buf ++ bytes }) v.header_room
              (at_header ((==_iff _ _).0 e)) ((==_iff _ _).0 e))
      | inr e ↦
          rw (e, Cut)
            (deliver-Cut realloc_ok (record ctx { buf = ctx.buf ++ bytes }) v.header_room v.room
              (part (ground arith)) (whole (ground arith)) (omega (arith, grown, before)))
    ]
  where
    grown : length (ctx.buf ++ bytes) ≡ length ctx.buf + length bytes
    grown = length-append ctx.buf bytes

    before : length ctx.buf < ctx.buf_expected
    before = omega arith

    at_header : length (ctx.buf ++ bytes) ≡ msg_hdr_size → ctx.buf_expected ≡ msg_hdr_size
    at_header same = elim v.partial [
      | inl (short, is) ↦ is
      | inr (long, lt, is, bound) ↦ absurd (omega (arith, grown))
    ]

    part :
        length (ctx.buf ++ bytes) ≢ msg_hdr_size
        → length (ctx.buf ++ bytes) < ctx.buf_expected
        → Partial (ctx.buf ++ bytes) ctx.buf_expected
    part other lt = elim v.partial [
      | inl (short, is) ↦ inl (omega arith, is)
      | inr (long, lt', is, bound) ↦ inr (
        omega (arith, grown),
        lt,
        omega (arith, body_size-append ctx.buf bytes long),
        omega (arith, body_size-append ctx.buf bytes long),
      )
    ]

    whole :
        length (ctx.buf ++ bytes) ≢ msg_hdr_size
        → length (ctx.buf ++ bytes) ≡ ctx.buf_expected
        → IsFrame (ctx.buf ++ bytes)
    whole other same = elim v.partial [
      | inl (short, is) ↦ absurd (omega arith)
      | inr (long, lt', is, bound) ↦ record {
        whole = omega (arith, body_size-append ctx.buf bytes long);
        bounded = omega (arith, body_size-append ctx.buf bytes long);
      }
    ]
