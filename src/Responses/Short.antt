-- ===== src/Responses/Short.antt =====
-- c-src/main/uif-response.c: the responses of fixed size, and the statistics, which are copied. The
-- assertion on the size is a `none`.
use jauto_profiler_mcp.Prelude.{
  ℕ, ◌%◌, ◌^◌, Bool, true, false, ◌||◌, List, ◌++◌, Option, none, some, ltb, ◌==◌, if◌then◌else◌,
  length,
}
use jauto_profiler_mcp.Responses.{UserMsg, bytes}

-- UIF_SHORT_RESP_MAX_BODY
abbrev pub uif_short_resp_max_body : ℕ
uif_short_resp_max_body = 2048

-- `uif_send_short_response`
unfoldable pub uif_send_short_response : ℕ → List ℕ → Option UserMsg
uif_send_short_response type body =
    if ltb uif_short_resp_max_body (length body)
    then none
    else some (record { type = type; size = length body; body = body })

-- `uif_respond_instrument`: an error has no id
unfoldable pub uif_respond_instrument : ℕ → ℕ → Option UserMsg
unfolding uif_send_short_response
uif_respond_instrument status instrument_id =
    let has_id = status == 0 || status == 3 || status == 1 in
    uif_send_short_response 5 (bytes 4 status ++ bytes 8 (if has_id then instrument_id else 0))

-- `uif_respond_get_stats`
unfoldable pub uif_respond_get_stats : Bool → List ℕ → Option UserMsg
uif_respond_get_stats alloc_ok stats_buf =
    if alloc_ok
    then some (record { type = 7; size = length stats_buf % 2 ^ 32; body = stats_buf })
    else none

-- `uif_respond_deinstrument`
unfoldable pub uif_respond_deinstrument : ℕ → Option UserMsg
unfolding uif_send_short_response
uif_respond_deinstrument status = uif_send_short_response 9 (bytes 4 status)

-- `uif_respond_resume`
unfoldable pub uif_respond_resume : ℕ → Option UserMsg
unfolding uif_send_short_response
uif_respond_resume status = uif_send_short_response 12 (bytes 4 status)

-- `uif_respond_pause_threads`
unfoldable pub uif_respond_pause_threads : ℕ → Option UserMsg
unfolding uif_send_short_response
uif_respond_pause_threads status = uif_send_short_response 14 (bytes 4 status)

-- `uif_respond_deinstrument_by_id`
unfoldable pub uif_respond_deinstrument_by_id : ℕ → Option UserMsg
unfolding uif_send_short_response
uif_respond_deinstrument_by_id status = uif_send_short_response 20 (bytes 4 status)

-- `uif_respond_instrument_line`
unfoldable pub uif_respond_instrument_line : ℕ → ℕ → Option UserMsg
unfolding uif_send_short_response
uif_respond_instrument_line status instrument_id =
    uif_send_short_response 22 (bytes 4 status ++ bytes 8 instrument_id)

abbrev flag : Bool → ℕ
flag true = 1
flag false = 0

-- `uif_respond_get_status`
unfoldable pub uif_respond_get_status : Bool → Bool → Option UserMsg
unfolding uif_send_short_response
uif_respond_get_status shutting_down paused =
    uif_send_short_response 24 (bytes 4 (flag shutting_down) ++ bytes 4 (flag paused))
