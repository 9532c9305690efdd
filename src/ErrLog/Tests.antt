-- ===== src/ErrLog/Tests.antt =====
-- prof-err-log.c: a full log, whose next message overwrites the oldest.
use jauto_profiler_mcp.Prelude.{◌+◌, ◌*◌, ◌≡◌, refl, [], ◌∷◌, ◌++◌, some, arith}
use jauto_profiler_mcp.ErrLog.{ErrLog, do_push, drain, log_size, start}
use jauto_profiler_mcp.ErrLog.Contents.{IsValid, contents, window, newest, contents-do_push}
use jauto_profiler_mcp.ErrLog.Reads.{drain-contents, log_size-contents, msg_bytes}

-- entry `i` was logged at time `i` and says `i`
abbrev full : ErrLog
full = record {
  entries = λ i. record { timestamp = i; msg = some (i ∷ []) };
  next = 5;
  count = 4096;
}

full-IsValid : IsValid full
full-IsValid = record { next_in = omega arith; count_in = omega arith }

contents-do_push_example :
    IsValid (do_push full 9 (1 ∷ 2 ∷ []))
    × (contents (do_push full 9 (1 ∷ 2 ∷ []))
        ≡ newest (contents full ++ record { timestamp = 9; msg = some (1 ∷ 2 ∷ []) } ∷ []))
contents-do_push_example = contents-do_push full 9 (1 ∷ 2 ∷ []) full-IsValid

drain-contents_example : drain 4097 full 0 ≡ contents full
drain-contents_example = drain-contents full 4097 (omega arith)

-- two entries, the first at the end of the array
abbrev two : ErrLog
two = record { entries = λ i. record { timestamp = i; msg = some (i ∷ []) }; next = 1; count = 2 }

log_size-contents_example :
    log_size two
    ≡ some (record {
      string_size = msg_bytes (contents two);
      count = two.count;
      overhead_size = msg_bytes (contents two) + 10 * two.count;
    })
unfolding contents window start
log_size-contents_example = log_size-contents two ((_, refl), ((_, refl), tt))
