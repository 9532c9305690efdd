-- ===== src/UserIf/Tests.antt =====
-- user-if.c: a message whose body comes in two pieces, and a part of the next header.
use jauto_profiler_mcp.Prelude.{ℕ, ◌≡◌, refl, inl, Bool, true, List, [], ◌∷◌, ◌++◌, some, arith}
use jauto_profiler_mcp.Prelude.Checked.{done}
use jauto_profiler_mcp.UserIf.{
  ReadResult, body_size, failed, got, accepted, serve, handle_client_data, request,
}
use jauto_profiler_mcp.UserIf.Framing.{IsValid}
use jauto_profiler_mcp.UserIf.Stream.{stream, Obeys, Served, serve-Served}

abbrev reads : List ReadResult
reads =
    got (1 ∷ 0 ∷ 0 ∷ 0 ∷ 2 ∷ 0 ∷ 0 ∷ 0 ∷ [])
    ∷ failed true
    ∷ got (7 ∷ [])
    ∷ got (9 ∷ [])
    ∷ got (1 ∷ 0 ∷ 0 ∷ [])
    ∷ []

abbrev plenty : ℕ → Bool
plenty n = true

accepted-IsValid : IsValid accepted
unfolding accepted
accepted-IsValid = record {
  room = omega arith;
  header_room = omega arith;
  partial = inl (omega arith, refl);
}

reads-Obeys : Obeys plenty accepted reads
unfolding Obeys accepted handle_client_data request body_size
reads-Obeys = (
  (omega arith, omega arith),
  (
    done,
    ((omega arith, omega arith), ((omega arith, omega arith), ((omega arith, omega arith), done))),
  ),
)

serve-Served_example : Served (accepted.buf ++ stream reads) (serve plenty accepted reads)
serve-Served_example = serve-Served plenty reads accepted accepted-IsValid reads-Obeys

delivers : serve plenty accepted reads ≡ (
  (1 ∷ 0 ∷ 0 ∷ 0 ∷ 2 ∷ 0 ∷ 0 ∷ 0 ∷ 7 ∷ 9 ∷ []) ∷ [],
  some (record { buf = 1 ∷ 0 ∷ 0 ∷ []; buf_alloc = 10; buf_expected = 8 }),
)
unfolding serve accepted body_size
delivers = refl
