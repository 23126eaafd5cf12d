-- ===== src/Protocol/Anthropic/Reasons.antt =====
-- internal/protocol/anthropic.go, anthropicStopReason and irFinishReason.
use clean_api.Base.{String, if◌then◌else◌, ◌==◌, string_equality}

unfoldable pub anthropic_stop_reason : String → String
anthropic_stop_reason finish =
    if finish == "tool_calls"
    then "tool_use"
    else if finish == "length"
    then "max_tokens"
    else "end_turn"

unfoldable pub ir_finish_reason : String → String
ir_finish_reason stop =
    if stop == "tool_use" then "tool_calls" else if stop == "max_tokens" then "length" else "stop"
