-- ===== src/Convert/RoundTrip.antt =====
-- What comes back from the converters of unify_llm/convert.py when they are run one after the other.
use unify_llm.Prelude.{
  String, ◌≡◌, refl, ◌⊎◌, inl, inr, true, Option, none, some, List, [], ◌∷◌, ◌++◌, map, All, arith,
}
use unify_llm.Prelude.Text.{◌+str◌, str_nil}
use unify_llm.StopReasons.{finish_to_stop, stop_to_finish}
use unify_llm.Json.{Fields, object, end, text, is_truthy, Codec, Survives, parse_json_arg}
use unify_llm.Convert.{Part, tool_use, join, ToolCall, or_text, as_text}
use unify_llm.Convert.Tools.{
  ToolSpec, ToolEntry, ToolChoice, word, chosen, anthropic_tool, openai_tools_to_anthropic,
  anthropic_tools_to_openai, openai_tool_choice_to_anthropic, anthropic_tool_choice_to_openai,
}
use unify_llm.Convert.ToAnthropic.{text_block, or_empty, call_block}
use unify_llm.Convert.ToOpenai.{text_parts, tool_uses, dumped}
use unify_llm.Convert.Responses.{
  MessageAnswer, message, no_message, openai_message_text, answer_content, to_message, to_chat,
  openai_response_to_anthropic_message, anthropic_response_to_openai_chat,
}

-- A tool as an Anthropic request lists it
abbrev listed : ToolSpec → ToolEntry
listed t = anthropic_tool t.name t.description t.input_schema

-- Anthropic tools with a schema that is not empty come back as they were.
tools_round_trip :
    (ts : List ToolSpec)
    → All (λ t. is_truthy t.input_schema ≡ true) ts
    → openai_tools_to_anthropic (anthropic_tools_to_openai (map listed ts)) ≡ map listed ts
unfolding openai_tools_to_anthropic anthropic_tools_to_openai
tools_round_trip [] h = refl
tools_round_trip (t ∷ ts) h = ground (arith, h.0, tools_round_trip ts h.1)

-- What a tool choice of a chat becomes, or none, is the same after a way back and forth.
tool_choice_round_trip :
    (c : Option ToolChoice)
    → openai_tool_choice_to_anthropic
        (anthropic_tool_choice_to_openai (openai_tool_choice_to_anthropic c))
      ≡ openai_tool_choice_to_anthropic c
unfolding openai_tool_choice_to_anthropic anthropic_tool_choice_to_openai
tool_choice_round_trip none = refl
tool_choice_round_trip (some (word w)) = ground arith
tool_choice_round_trip (some (chosen type f n)) = ground arith

-- A call with the object that it is given
abbrev pub call_part : String × (String × Fields) → Part
call_part (id, (name, input)) = tool_use id name (object input)

text_parts-calls :
    (calls : List (String × (String × Fields))) → text_parts (map call_part calls) ≡ []
unfolding text_parts
text_parts-calls [] = refl
text_parts-calls (k ∷ calls) = text_parts-calls calls

pub join-text_parts :
    (t : String) (calls : List (String × (String × Fields)))
    → join (text_parts (or_empty (text_block t ++ map call_part calls))) ≡ t
unfolding text_parts
join-text_parts String.[] [] = refl
join-text_parts String.[] (k ∷ calls) = rw (text_parts-calls calls) refl
join-text_parts (String.◌∷◌ a t) calls = rw (text_parts-calls calls) (str_nil (String.◌∷◌ a t))

abbrev pub sent_call : Codec → String × (String × Fields) → ToolCall
sent_call c (id, (name, input)) = record {
  id = id;
  name = name;
  arguments = text (c.dumps (object input));
}

dumped-object : (c : Codec) (fs : Fields) → dumped c (object fs) ≡ text (c.dumps (object fs))
dumped-object c end = refl
dumped-object c (Fields.field k v fs) = refl

tool_uses-calls :
    (c : Codec) (calls : List (String × (String × Fields)))
    → tool_uses c (map call_part calls) ≡ map (sent_call c) calls
unfolding tool_uses
tool_uses-calls c [] = refl
tool_uses-calls c ((id, (name, fs)) ∷ calls) = rw (dumped-object c fs, tool_uses-calls c calls) refl

pub tool_uses-content :
    (c : Codec) (t : String) (calls : List (String × (String × Fields)))
    → tool_uses c (or_empty (text_block t ++ map call_part calls)) ≡ map (sent_call c) calls
unfolding tool_uses
tool_uses-content c String.[] [] = refl
tool_uses-content c String.[] (k ∷ calls) = tool_uses-calls c (k ∷ calls)
tool_uses-content c (String.◌∷◌ a t) calls = tool_uses-calls c calls

pub call_block-sent :
    (c : Codec) (calls : List (String × (String × Fields)))
    → All (λ k. Survives c (object k.1.1)) calls
    → map (call_block c) (map (sent_call c) calls) ≡ map call_part calls
unfolding parse_json_arg
call_block-sent c [] h = refl
call_block-sent c ((id, (name, fs)) ∷ calls) h = rw (call_block-sent c calls h.1, h.0.0, h.0.1) refl

message_text :
    (t : String) (tcs : List ToolCall)
    → openai_message_text (record no_message { content = answer_content tcs t; tool_calls = tcs })
      ≡ t
unfolding openai_message_text as_text
message_text String.[] [] = refl
message_text String.[] (tc ∷ tcs) = refl
message_text (String.◌∷◌ a t) [] = refl
message_text (String.◌∷◌ a t) (tc ∷ tcs) = refl

or_text-twice : (a b : String) → or_text a (or_text a b) ≡ or_text a b
or_text-twice String.[] b = refl
or_text-twice (String.◌∷◌ c t) b = refl

-- A reason of an Anthropic answer that has a finish reason of its own
abbrev pub KnownStop : String → Type 0
KnownStop r = (r ≡ "end_turn") ⊎ ((r ≡ "max_tokens") ⊎ (r ≡ "tool_use"))

finish_to_stop-stop_to_finish : (r : String) → KnownStop r → finish_to_stop (stop_to_finish r) ≡ r
unfolding finish_to_stop stop_to_finish
finish_to_stop-stop_to_finish r (inl e) = rw (e) refl
finish_to_stop-stop_to_finish r (inr (inl e)) = rw (e) refl
finish_to_stop-stop_to_finish r (inr (inr e)) = rw (e) refl

-- An Anthropic answer, of a text and calls whose inputs are objects that `json` dumps and loads again,
-- with one of the three common stop reasons, comes back from the chat format with the same content,
-- reason and usage, under the model's name that is asked for and an id that shows the way.
pub response_round_trip :
    (c : Codec) (model t : String) (calls : List (String × (String × Fields))) (m : MessageAnswer)
    → All (λ k. Survives c (object k.1.1)) calls
    → m.content ≡ or_empty (text_block t ++ map call_part calls)
    → KnownStop m.stop_reason
    → openai_response_to_anthropic_message c
        (anthropic_response_to_openai_chat c (message m) model)
        model
      ≡ message (record m {
        id = "msg_chatcmpl-" +str or_text m.id "proxy";
        model = or_text model m.model;
      })
unfolding openai_response_to_anthropic_message anthropic_response_to_openai_chat to_message to_chat
response_round_trip c model t calls m h e k =
    rw
      (
        e,
        join-text_parts t calls,
        tool_uses-content c t calls,
        message_text t (map (sent_call c) calls),
        call_block-sent c calls h,
        or_text-twice model m.model,
        finish_to_stop-stop_to_finish m.stop_reason k,
      )
      refl
