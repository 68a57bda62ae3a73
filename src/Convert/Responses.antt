-- ===== src/Convert/Responses.antt =====
-- The two converters of whole answers in unify_llm/convert.py. The time of creation is left out.
use unify_llm.Prelude.{ℕ, ◌+◌, String, not, List, [], ◌∷◌, ◌++◌, map, if◌then◌else◌}
use unify_llm.Prelude.Text.{is_empty, ◌+str◌}
use unify_llm.StopReasons.{finish_to_stop, stop_to_finish}
use unify_llm.Json.{Codec, parse_json_arg}
use unify_llm.Convert.{Part, Content, absent, plain_text, join, as_text, ToolCall, or_text}
use unify_llm.Convert.ToAnthropic.{text_block, or_empty, call_block}
use unify_llm.Convert.ToOpenai.{text_parts, tool_uses, has_content}

-- The message of a choice
pub record AnswerMessage : Type 0 where
  pub content : Content
  pub reasoning_content : Content
  pub reasoning : Content
  pub thinking : Content
  pub tool_calls : List ToolCall

pub record ChatChoice : Type 0 where
  pub message : AnswerMessage
  pub finish_reason : String

pub record ChatAnswer : Type 0 where
  pub id : String
  pub model : String
  pub choices : List ChatChoice
  pub prompt_tokens : ℕ
  pub completion_tokens : ℕ
  pub total_tokens : ℕ

pub record MessageAnswer : Type 0 where
  pub id : String
  pub model : String
  pub content : List Part
  pub stop_reason : String
  pub input_tokens : ℕ
  pub output_tokens : ℕ

-- An answer of either protocol: an object with `choices`, one of the type `message`, or an error
pub data Answer : Type 0 where
  chat_completion : ChatAnswer → Answer
  message : MessageAnswer → Answer
  error : String → Answer

abbrev pub no_message : AnswerMessage
no_message = record {
  content = absent;
  reasoning_content = absent;
  reasoning = absent;
  thinking = absent;
  tool_calls = [];
}

-- `choices[0] if choices else {}`
abbrev pub first_choice : List ChatChoice → ChatChoice
first_choice [] = record { message = no_message; finish_reason = "" }
first_choice (c ∷ cs) = c

-- `_openai_message_text`
unfoldable pub openai_message_text : AnswerMessage → String
unfolding as_text
openai_message_text m =
    if not (is_empty (as_text m.content))
    then as_text m.content
    else if has_content m.reasoning_content
    then as_text m.reasoning_content
    else if has_content m.reasoning
    then as_text m.reasoning
    else if has_content m.thinking
    then as_text m.thinking
    else ""

unfoldable pub to_message : Codec → ChatAnswer → String → MessageAnswer
unfolding openai_message_text parse_json_arg finish_to_stop
to_message c r model =
    let choice = first_choice r.choices in
    record {
      id = "msg_" +str or_text r.id "proxy";
      model = or_text model r.model;
      content = or_empty (
          text_block (openai_message_text choice.message)
          ++ map (call_block c) choice.message.tool_calls);
      stop_reason = finish_to_stop choice.finish_reason;
      input_tokens = r.prompt_tokens;
      output_tokens = r.completion_tokens;
    }

-- `openai_response_to_anthropic_message`
unfoldable pub openai_response_to_anthropic_message : Codec → Answer → String → Answer
unfolding to_message
openai_response_to_anthropic_message c (message m) model = message m
openai_response_to_anthropic_message c (error e) model = error e
openai_response_to_anthropic_message c (chat_completion r) model = message (to_message c r model)

-- `message["content"] = None` for calls without text
abbrev pub answer_content : List ToolCall → String → Content
answer_content [] t = plain_text t
answer_content (tc ∷ tcs) t = if is_empty t then absent else plain_text t

unfoldable pub to_chat : Codec → MessageAnswer → String → ChatAnswer
unfolding text_parts tool_uses stop_to_finish
to_chat c r model =
    let calls = tool_uses c r.content in
    record {
      id = "chatcmpl-" +str or_text r.id "proxy";
      model = or_text model r.model;
      choices =
          record {
            message = record no_message {
              content = answer_content calls (join (text_parts r.content));
              tool_calls = calls;
            };
            finish_reason = stop_to_finish r.stop_reason;
          }
          ∷ [];
      prompt_tokens = r.input_tokens;
      completion_tokens = r.output_tokens;
      total_tokens = r.input_tokens + r.output_tokens;
    }

-- `anthropic_response_to_openai_chat`; an error is read as a message without content.
unfoldable pub anthropic_response_to_openai_chat : Codec → Answer → String → Answer
unfolding to_chat
anthropic_response_to_openai_chat c (chat_completion r) model = chat_completion r
anthropic_response_to_openai_chat c (message m) model = chat_completion (to_chat c m model)
anthropic_response_to_openai_chat c (error e) model = chat_completion (
    to_chat c
      (record {
        id = "";
        model = "";
        content = [];
        stop_reason = "";
        input_tokens = 0;
        output_tokens = 0;
      })
      model)
