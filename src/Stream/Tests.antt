-- ===== src/Stream/Tests.antt =====
-- Streams through the converters of unify_llm/convert.py.
use unify_llm.Prelude.{ℕ, String, ◌≡◌, refl, true, none, some, List, [], ◌∷◌}
use unify_llm.StopReasons.{finish_to_stop}
use unify_llm.Stream.{Chunk}
use unify_llm.Stream.ToAnthropic.{
  to_anthropic, on_chunks, on_chunk, on_choice, on_text, on_tools, on_tool, on_usage, index_of,
  delta_text, closing, close_tools,
}
use unify_llm.Stream.ToOpenai.{to_openai}
use unify_llm.Stream.Text.{all_text, out_text, round_trip-text}
use unify_llm.Stream.Protocol.{take_events, take_event, new_client, IsComplete, text_first}
use unify_llm.Stream.Protocol.Converted.{to_anthropic-IsComplete}

abbrev says : String → Chunk
says t = record {
  usage = none;
  choice = some (record {
    content = t;
    reasoning_content = "";
    reasoning = "";
    thinking = "";
    tool_calls = [];
    finish_reason = "";
  });
}

abbrev calls : ℕ → String → Chunk
calls slot args = record {
  usage = none;
  choice = some (record {
    content = "";
    reasoning_content = "";
    reasoning = "";
    thinking = "";
    tool_calls = record { slot = slot; id = "call_a"; name = "search"; arguments = args } ∷ [];
    finish_reason = "tool_calls";
  });
}

abbrev totals : Chunk
totals = record { usage = some (12, 7); choice = none }

abbrev chunks : List Chunk
chunks =
    says "Let me " ∷ says "look." ∷ calls 0 "{\"q\":" ∷ calls 1 "{}" ∷ calls 0 "1}" ∷ totals ∷ []

round_trip-text_example : all_text out_text (to_openai true (to_anthropic chunks)) ≡ "Let me look."
unfolding delta_text
round_trip-text_example = round_trip-text true chunks

to_anthropic-IsComplete_example : IsComplete (take_events (to_anthropic chunks) new_client)
unfolding text_first delta_text
to_anthropic-IsComplete_example = to_anthropic-IsComplete chunks refl

-- Text after a tool call is sent to the text block, which is closed by then.
text_after_tool : take_events (to_anthropic (calls 0 "{}" ∷ says "Done." ∷ [])) new_client ≡ none
unfolding take_events take_event to_anthropic on_chunks on_chunk on_choice on_text on_tools on_tool
    on_usage index_of delta_text closing close_tools finish_to_stop
text_after_tool = refl
