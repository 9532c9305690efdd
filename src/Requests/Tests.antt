-- ===== src/Requests/Tests.antt =====
-- ps-uif-handler.c: a request about the method `m()V` of the class `A`, and one that is cut short.
use jauto_profiler_mcp.Prelude.{ℕ, ◌≡◌, ◌⊎◌, true, List, [], ◌∷◌, arith}
use jauto_profiler_mcp.Prelude.Checked.{fail, ok}
use jauto_profiler_mcp.Requests.{Request, instrument_method, Memory, parse_method, ps_uif_handler}
use jauto_profiler_mcp.Requests.Bounds.{ps_uif_handler-IsSafe}
use jauto_profiler_mcp.Requests.Layout.{encode, parse_method-encode}

abbrev plenty : Memory
plenty = record { first_ok = true; second_ok = true }

abbrev name : List ℕ
name = 65 ∷ []

abbrev sig : List ℕ
sig = 109 ∷ 40 ∷ 41 ∷ 86 ∷ []

ps_uif_handler_example :
    (ps_uif_handler plenty 4 (200 ∷ 0 ∷ 65 ∷ []) ≡ fail)
    ⊎ ((r : Request) × (ps_uif_handler plenty 4 (200 ∷ 0 ∷ 65 ∷ []) ≡ ok r))
ps_uif_handler_example = ps_uif_handler-IsSafe plenty 4 (200 ∷ 0 ∷ 65 ∷ [])

parse_method_example :
    parse_method instrument_method plenty (encode name sig) ≡ ok (instrument_method name sig)
parse_method_example = parse_method-encode name sig instrument_method (omega arith) (omega arith)
