-- ===== src/Convert/Round.antt =====
-- A round of a chat with tools, through both request converters of unify_llm/convert.py.
use unify_llm.Prelude.{
  String, ◌≡◌, refl, ap, sym, ◌∙◌, List, [], ◌∷◌, ◌++◌, map, All, append-nil, append_assoc,
}
use unify_llm.Json.{Fields, object, Codec, Survives}
use unify_llm.Convert.{
  Part, tool_result, plain, plain_text, parts, assistant, user, tool, ChatMessage, by_user,
  by_assistant, Turn, or_text, as_text, result_text,
}
use unify_llm.Convert.ToAnthropic.{
  State, initial, turn, text_block, or_empty, assistant_blocks, flush_tool_results, take_role,
  take_message, take_messages, merge, add_merged, start_with_user, convert_messages,
}
use unify_llm.Convert.ToOpenai.{Message, chat, text_parts, tool_results, on_message, on_messages}
use unify_llm.Convert.RoundTrip.{
  call_part, sent_call, join-text_parts, tool_uses-content, call_block-sent,
}

-- A turn as a message of an Anthropic request
abbrev pub sent : Turn → Message
sent t = record {
  role = elim t.speaker [ by_user ↦ user | by_assistant ↦ assistant ];
  content = t.content;
}

-- The answer of a tool, and the block that it becomes
abbrev pub answer : String × String → ChatMessage
answer (id, t) = chat tool (plain_text t) [] id

abbrev pub asks_for : Codec → String → List (String × (String × Fields)) → ChatMessage
asks_for c t calls = chat assistant (plain_text t) (map (sent_call c) calls) ""

abbrev result_part : String × String → Part
result_part (id, t) = tool_result id (plain t)

or_text-nothing : (id : String) → or_text id "" ≡ id
or_text-nothing String.[] = refl
or_text-nothing (String.◌∷◌ c t) = refl

take_answers :
    (c : Codec) (given : List (String × String)) (s : State)
    → take_messages c (map answer given) s
      ≡ record s { pending_tool_results = s.pending_tool_results ++ map result_part given }
unfolding take_messages take_message take_role as_text
take_answers c [] s =
    ap (λ l. record s { pending_tool_results = l }) (sym (append-nil s.pending_tool_results))
take_answers c ((id, t) ∷ given) s =
    ap
      (λ i. take_messages c (map answer given) (record s {
        pending_tool_results = s.pending_tool_results ++ tool_result i (plain t) ∷ [];
      }))
      (or_text-nothing id)
    ∙ take_answers c given (record s {
      pending_tool_results = s.pending_tool_results ++ tool_result id (plain t) ∷ [];
    })
    ∙ ap (λ l. record s { pending_tool_results = l })
        (append_assoc s.pending_tool_results (tool_result id (plain t) ∷ [])
          (map result_part given))

tool_results-parts :
    (given : List (String × String)) → tool_results (map result_part given) ≡ map answer given
unfolding tool_results result_text
tool_results-parts [] = refl
tool_results-parts (a ∷ given) = ap (λ l. answer a ∷ l) (tool_results-parts given)

text_parts-results : (given : List (String × String)) → text_parts (map result_part given) ≡ []
unfolding text_parts
text_parts-results [] = refl
text_parts-results (a ∷ given) = text_parts-results given

on_message-answers :
    (c : Codec) (a : String × String) (given : List (String × String))
    → on_message c (sent (turn by_user (parts (map result_part (a ∷ given)))))
      ≡ map answer (a ∷ given)
unfolding on_message
on_message-answers c a given =
    rw (text_parts-results given)
      (append-nil (tool_results (map result_part (a ∷ given))) ∙ tool_results-parts (a ∷ given))

blocks_lem :
    (c : Codec) (t : String) (calls : List (String × (String × Fields)))
    → All (λ k. Survives c (object k.1.1)) calls
    → assistant_blocks c (asks_for c t calls) ≡ or_empty (text_block t ++ map call_part calls)
unfolding assistant_blocks as_text
blocks_lem c t calls h = rw (call_block-sent c calls h, append-nil (map call_part calls)) refl

on_message-asks_for :
    (c : Codec) (t : String) (calls : List (String × (String × Fields)))
    → All (λ k. Survives c (object k.1.1)) calls
    → on_message c (sent (turn by_assistant (parts (assistant_blocks c (asks_for c t calls)))))
      ≡ asks_for c t calls ∷ []
unfolding on_message
on_message-asks_for c t calls h =
    rw (blocks_lem c t calls h, join-text_parts t calls, tool_uses-content c t calls) refl

-- The turns of a round in which tools answer
turns_lem :
    (c : Codec) (q t : String) (calls : List (String × (String × Fields))) (a : String × String)
    (given : List (String × String))
    → (flush_tool_results (
        take_messages c
          (chat user (plain_text q) [] "" ∷ asks_for c t calls ∷ map answer (a ∷ given))
          initial)).messages
      ≡ turn by_user (plain_text q)
        ∷ turn by_assistant (parts (assistant_blocks c (asks_for c t calls)))
        ∷ turn by_user (parts (map result_part (a ∷ given)))
        ∷ []
unfolding flush_tool_results take_messages take_message take_role as_text
turns_lem c q t calls a given =
    ap (λ s. (flush_tool_results s).messages)
      (take_answers c (a ∷ given) (record initial {
        messages =
            turn by_user (plain_text q)
            ∷ turn by_assistant (parts (assistant_blocks c (asks_for c t calls)))
            ∷ [];
      }))

-- A question, the assistant's calls, whose inputs are objects that `json` dumps and loads again, and the
-- tools' answers come back as they were from an Anthropic request.
pub chat_round_trip :
    (c : Codec) (q t : String) (calls : List (String × (String × Fields)))
    (given : List (String × String))
    → All (λ k. Survives c (object k.1.1)) calls
    → on_messages c (
        map sent (
          convert_messages c
            (chat user (plain_text q) [] "" ∷ asks_for c t calls ∷ map answer given)))
      ≡ chat user (plain_text q) [] "" ∷ asks_for c t calls ∷ map answer given
unfolding on_messages convert_messages take_messages take_message take_role flush_tool_results merge
    add_merged start_with_user as_text
chat_round_trip c q t calls [] h =
    ap (λ l. chat user (plain_text q) [] "" ∷ l) (on_message-asks_for c t calls h)
chat_round_trip c q t calls (a ∷ given) h =
    ap (λ l. on_messages c (map sent (start_with_user (merge [] l))))
      (turns_lem c q t calls a given)
    ∙ ap
        (λ l.
          chat user (plain_text q) [] ""
          ∷ (l ++ (on_message c (sent (turn by_user (parts (map result_part (a ∷ given))))) ++ [])))
        (on_message-asks_for c t calls h)
    ∙ ap (λ l. chat user (plain_text q) [] "" ∷ asks_for c t calls ∷ l)
        (append-nil _ ∙ on_message-answers c a given)
