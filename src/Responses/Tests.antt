-- ===== src/Responses/Tests.antt =====
-- uif-response.c: responses with a few entries.
use jauto_profiler_mcp.Prelude.{
  ℕ, ◌+◌, ◌*◌, ◌^◌, ◌<◌, ◌≡◌, refl, true, false, List, [], ◌∷◌, none, some, length, arith,
}
use jauto_profiler_mcp.ErrLog.{ErrLog, start}
use jauto_profiler_mcp.ErrLog.Contents.{contents, window}
use jauto_profiler_mcp.ErrLog.Reads.{msg_bytes, HasMessages}
use jauto_profiler_mcp.MasterInstruments.{MiEntry, mi_method, mi_var_bind, mi_type_is_user_visible}
use jauto_profiler_mcp.Responses.{
  UserMsg, uif_respond_get_async_errors, uif_respond_loaded_classes, uif_respond_list_instrumented,
  uif_respond_class_methods,
}
use jauto_profiler_mcp.Responses.Sizes.{list_instrumented_size, async_errors_size}

-- a method `m` of the class `A`, and a hidden instrument
abbrev listed : List (ℕ × MiEntry)
listed =
    (1, mi_method (65 ∷ []) (109 ∷ []) false) ∷ (2, mi_var_bind (65 ∷ []) (120 ∷ []) 7 true) ∷ []

abbrev response : UserMsg
response = record {
  type = 16;
  size = 23;
  body =
      1 ∷ 0 ∷ 0 ∷ 0 ∷ 0 ∷ 0 ∷ 0 ∷ 0 ∷ 0 ∷ 1 ∷ 0 ∷ 0 ∷ 0 ∷ 0 ∷ 0 ∷ 0 ∷ 0 ∷ 1 ∷ 0 ∷ 65 ∷ 1 ∷ 0 ∷ 109
      ∷ [];
}

responds : uif_respond_list_instrumented true listed ≡ some response
unfolding uif_respond_list_instrumented mi_type_is_user_visible
responds = refl

list_instrumented_example : response.size ≡ length response.body
list_instrumented_example = list_instrumented_size true listed response responds

abbrev not_loaded : UserMsg
not_loaded = record { type = 3; size = 8; body = 1 ∷ 0 ∷ 0 ∷ 0 ∷ 0 ∷ 0 ∷ 0 ∷ 0 ∷ [] }

responds_not_loaded : uif_respond_class_methods true none ≡ some not_loaded
unfolding uif_respond_class_methods
responds_not_loaded = refl

abbrev one_class : UserMsg
one_class = record { type = 1; size = 7; body = 1 ∷ 0 ∷ 0 ∷ 0 ∷ 1 ∷ 0 ∷ 65 ∷ [] }

responds_one_class : uif_respond_loaded_classes true ((65 ∷ []) ∷ []) ≡ some one_class
unfolding uif_respond_loaded_classes
responds_one_class = refl

-- a log with the error `E`, at time 3
abbrev one_error : ErrLog
one_error = record {
  entries = λ i. record { timestamp = 3; msg = some (69 ∷ []) };
  next = 1;
  count = 1;
}

one_error-HasMessages : HasMessages (contents one_error)
unfolding contents window start
one_error-HasMessages = ((_, refl), tt)

fits : 4 + msg_bytes (contents one_error) + 10 * 1 < 2 ^ 32
unfolding contents window start
fits = omega arith

async_errors_example :
    (m : UserMsg) × (uif_respond_get_async_errors true one_error ≡ some m)
    × (m.size ≡ length m.body)
    × (m.size ≡ 4 + msg_bytes (contents one_error) + 10 * one_error.count)
async_errors_example = async_errors_size one_error one_error-HasMessages fits
