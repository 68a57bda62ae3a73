-- ===== src/StopReasons.antt =====
-- `_finish_reason_to_stop_reason` and `_stop_reason_to_finish_reason` of unify_llm/convert.py. A
-- reason that is missing or null is the empty text.
use unify_llm.Prelude.{String, if◌then◌else◌}
use unify_llm.Prelude.Text.{str_eq}

unfoldable pub finish_to_stop : String → String
finish_to_stop r =
    if str_eq r "length"
    then "max_tokens"
    else if str_eq r "tool_calls"
    then "tool_use"
    else if str_eq r "function_call"
    then "tool_use"
    else "end_turn"

unfoldable pub stop_to_finish : String → String
stop_to_finish r =
    if str_eq r "max_tokens" then "length" else if str_eq r "tool_use" then "tool_calls" else "stop"
