-- ===== src/Convert/Tests.antt =====
-- A chat and an answer through the converters of unify_llm/convert.py.
use unify_llm.Prelude.{◌≡◌, refl, inr, String, none, some, List, [], ◌∷◌, map}
use unify_llm.Json.{null, text, object, Fields, end, field, Codec, parse_json_arg}
use unify_llm.Convert.{
  tool_use, tool_result, text_part, plain, plain_text, Role, system, tool, assistant, user,
  ChatMessage, as_text,
}
use unify_llm.Convert.Tools.{ToolSpec}
use unify_llm.Convert.ToAnthropic.{convert_messages}
use unify_llm.Convert.Responses.{
  MessageAnswer, message, openai_response_to_anthropic_message, anthropic_response_to_openai_chat,
}
use unify_llm.Convert.Round.{sent, answer, asks_for, chat_round_trip}
use unify_llm.Convert.ToOpenai.{on_messages, chat as openai_chat}
use unify_llm.Convert.ToolBlocks.{turn_tools, convert_messages-tools}
use unify_llm.Convert.RoundTrip.{response_round_trip}

-- `json` on objects with the one key `q`
abbrev codec : Codec
codec = record {
  dumps = λ v. elim v [ object (field k (text t) end) ↦ String.◌∷◌ "q" t | _ ↦ "null" ];
  loads =
      λ s. elim s [ String.[] ↦ none | String.◌∷◌ c t ↦ some (object (field "q" (text t) end)) ];
}

abbrev asks : Fields
asks = field "q" (text "rain") end

abbrev says : Role → String → ChatMessage
says role t = record {
  role = role;
  content = plain_text t;
  tool_calls = [];
  function_call = none;
  tool_call_id = "";
  id = "";
}

abbrev chat : List ChatMessage
chat =
    says system "Be brief."
    ∷ record (says assistant "") {
      tool_calls = record { id = "call_1"; name = "search"; arguments = text "qrain" } ∷ [];
    }
    ∷ record (says tool "wet") { tool_call_id = "call_1" }
    ∷ says user "And"
    ∷ says user "now?"
    ∷ []

convert_messages-tools_example :
    turn_tools (convert_messages codec chat)
    ≡ tool_use "call_1" "search" (object asks) ∷ tool_result "call_1" (plain "wet") ∷ []
unfolding parse_json_arg as_text
convert_messages-tools_example = convert_messages-tools codec chat

abbrev search_tool : ToolSpec
search_tool = record {
  name = "search";
  description = "Looks it up";
  input_schema = object asks;
  parameters = null;
}

abbrev called : MessageAnswer
called = record {
  id = "abc";
  model = "claude";
  content = text_part "Let me look." ∷ tool_use "toolu_1" "search" (object asks) ∷ [];
  stop_reason = "tool_use";
  input_tokens = 9;
  output_tokens = 4;
}

response_round_trip_example :
    openai_response_to_anthropic_message codec
      (anthropic_response_to_openai_chat codec (message called) "m")
      "m"
    ≡ message (record called { id = "msg_chatcmpl-abc"; model = "m" })
response_round_trip_example =
    response_round_trip codec "m" "Let me look." (("toolu_1", ("search", asks)) ∷ []) called
      ((refl, refl), tt) refl (inr (inr refl))

chat_round_trip_example :
    on_messages codec (
      map sent (
        convert_messages codec (
          openai_chat user (plain_text "Rain?") [] ""
          ∷ asks_for codec "" (("call_1", ("search", asks)) ∷ [])
          ∷ map answer (("call_1", "wet") ∷ []))))
    ≡ openai_chat user (plain_text "Rain?") [] ""
      ∷ asks_for codec "" (("call_1", ("search", asks)) ∷ [])
      ∷ map answer (("call_1", "wet") ∷ [])
chat_round_trip_example =
    chat_round_trip codec "Rain?" "" (("call_1", ("search", asks)) ∷ []) (("call_1", "wet") ∷ [])
      ((refl, refl), tt)
