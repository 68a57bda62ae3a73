-- ===== src/Convert/ToAnthropic.antt =====
-- `openai_chat_to_anthropic_messages` of unify_llm/convert.py.
use unify_llm.Prelude.{
  ℕ, String, Bool, true, false, Option, none, some, List, [], ◌∷◌, ◌++◌, map, any_of, if◌then◌else◌,
}
use unify_llm.Prelude.Text.{is_empty, ◌+str◌}
use unify_llm.MaxTokens.{Body, resolve_max_tokens}
use unify_llm.Json.{Json, Items, nil, cons, array, is_truthy, Codec, parse_json_arg}
use unify_llm.Convert.{
  plain, Part, text_part, tool_use, tool_result, image_url, Content, absent, plain_text, parts,
  part_text, as_text, Role, system, developer, tool, assistant, user, unknown, ToolCall,
  ChatMessage, Speaker, by_user, by_assistant, Turn, or_text,
}
use unify_llm.Convert.Tools.{
  ToolEntry, ToolChoice, openai_tools_to_anthropic, openai_tool_choice_to_anthropic,
}

pub record State : Type 0 where
  pub system_parts : List String
  pub messages : List Turn
  pub pending_tool_results : List Part

abbrev pub initial : State
initial = record { system_parts = []; messages = []; pending_tool_results = [] }

abbrev pub turn : Speaker → Content → Turn
turn s c = record { speaker = s; content = c }

abbrev pub flushed : List Part → State → State
flushed [] s = s
flushed (p ∷ ps) s = record s {
  messages = s.messages ++ turn by_user (parts (p ∷ ps)) ∷ [];
  pending_tool_results = [];
}

-- `flush_tool_results`
unfoldable pub flush_tool_results : State → State
flush_tool_results s = flushed s.pending_tool_results s

abbrev pub call_block : Codec → ToolCall → Part
call_block c tc = tool_use tc.id tc.name (parse_json_arg c tc.arguments)

abbrev pub text_block : String → List Part
text_block t = if is_empty t then [] else text_part t ∷ []

-- The legacy `function_call`
abbrev pub legacy_block : Codec → ChatMessage → List Part
legacy_block c m = elim m.function_call [
  | none ↦ []
  | some f ↦
      if is_empty f.name
      then []
      else tool_use (or_text m.tool_call_id "call_legacy") f.name (parse_json_arg c f.arguments)
        ∷ []
]

-- `if not blocks`
abbrev pub or_empty : List Part → List Part
or_empty [] = text_part "" ∷ []
or_empty (p ∷ ps) = p ∷ ps

unfoldable pub assistant_blocks : Codec → ChatMessage → List Part
unfolding as_text parse_json_arg
assistant_blocks c m =
    or_empty
      (text_block (as_text m.content) ++ (map (call_block c) m.tool_calls ++ legacy_block c m))

-- The blocks of a user's list; `image_url` is dropped, and an object of another type gives its text.
abbrev pub user_blocks : List Part → List Part
user_blocks [] = []
user_blocks (image_url ∷ ps) = user_blocks ps
user_blocks (p ∷ ps) = text_part (part_text p) ∷ user_blocks ps

abbrev pub user_content : Content → Content
user_content absent = plain_text ""
user_content (plain_text t) = plain_text t
user_content (parts ps) = parts (or_empty (user_blocks ps))

abbrev pub add_message : Turn → State → State
add_message t s = record s { messages = s.messages ++ t ∷ [] }

abbrev pub add_system : String → State → State
add_system t s = record s { system_parts = s.system_parts ++ t ∷ [] }

-- The answer of a tool
abbrev pub result_block : ChatMessage → Part
result_block m = tool_result (or_text m.tool_call_id m.id) (plain (as_text m.content))

-- A message of the given role
unfoldable pub take_role : Codec → ChatMessage → Role → State → State
unfolding flush_tool_results assistant_blocks as_text
take_role c m system s = add_system (as_text m.content) (flush_tool_results s)
take_role c m developer s = add_system (as_text m.content) (flush_tool_results s)
take_role c m tool s = record s {
  pending_tool_results = s.pending_tool_results ++ result_block m ∷ [];
}
take_role c m assistant s =
    add_message (turn by_assistant (parts (assistant_blocks c m))) (flush_tool_results s)
take_role c m user s = add_message (turn by_user (user_content m.content)) (flush_tool_results s)
take_role c m unknown s = add_message (turn by_user (user_content m.content)) (flush_tool_results s)

-- One message of the body
unfoldable pub take_message : Codec → ChatMessage → State → State
unfolding take_role
take_message c m s = take_role c m m.role s

unfoldable pub take_messages : Codec → List ChatMessage → State → State
unfolding take_message
take_messages c [] s = s
take_messages c (m ∷ ms) s = take_messages c ms (take_message c m s)

abbrev pub same_speaker : Speaker → Speaker → Bool
same_speaker by_user by_user = true
same_speaker by_assistant by_assistant = true
same_speaker _ _ = false

-- Two texts of one speaker become one.
abbrev pub joined : Turn → Turn → Option Turn
joined a b = elim a.content [
  | plain_text t ↦ (elim b.content [
    | plain_text u ↦
        if same_speaker a.speaker b.speaker
        then some (record a { content = plain_text (t +str "\n\n" +str u) })
        else none
    | _ ↦ none
  ])
  | _ ↦ none
]

-- `merged[-1]` and the message become one, or the message comes after it.
unfoldable pub add_merged : List Turn → Turn → List Turn
add_merged [] t = t ∷ []
add_merged (a ∷ []) t = elim (joined a t) [ none ↦ a ∷ t ∷ [] | some b ↦ b ∷ [] ]
add_merged (a ∷ b ∷ ts) t = a ∷ add_merged (b ∷ ts) t

unfoldable pub merge : List Turn → List Turn → List Turn
unfolding add_merged
merge merged [] = merged
merge merged (t ∷ ts) = merge (add_merged merged t) ts

abbrev pub is_result : Part → Bool
is_result (tool_result id c) = true
is_result _ = false

abbrev pub has_result : Content → Bool
has_result (parts ps) = any_of is_result ps
has_result _ = false

-- An answer of tools or a user's message has to come first.
unfoldable pub start_with_user : List Turn → List Turn
start_with_user [] = turn by_user (plain_text "(empty)") ∷ []
start_with_user (t ∷ ts) = elim t.speaker [
  | by_user ↦ t ∷ ts
  | by_assistant ↦
      if has_result t.content then t ∷ ts else turn by_user (plain_text "(continue)") ∷ t ∷ ts
]

-- `"\n\n".join(system_parts)`
abbrev pub paragraphs : List String → String
paragraphs [] = ""
paragraphs (t ∷ []) = t
paragraphs (t ∷ u ∷ ts) = t +str "\n\n" +str paragraphs (u ∷ ts)

-- The body of a chat request
pub record ChatBody : Type 0 where
  pub model : Json
  pub messages : List ChatMessage
  pub limits : Body
  pub temperature : Json
  pub top_p : Json
  pub stop : Json
  pub tools : List ToolEntry
  pub tool_choice : Option ToolChoice

-- The body of an Anthropic request; a list that is empty is left out.
pub record MessagesBody : Type 0 where
  pub model : Json
  pub messages : List Turn
  pub max_tokens : ℕ
  pub system : Option String
  pub temperature : Json
  pub top_p : Json
  pub stop_sequences : Items
  pub tools : List ToolEntry
  pub tool_choice : Option ToolChoice

abbrev system_text : List String → Option String
system_text [] = none
system_text (t ∷ ts) = some (paragraphs (t ∷ ts))

abbrev stop_list : Json → Items
stop_list (array vs) = vs
stop_list v = if is_truthy v then cons v nil else nil

-- `messages` of the request that is sent on
unfoldable pub convert_messages : Codec → List ChatMessage → List Turn
unfolding take_messages flush_tool_results merge start_with_user
convert_messages c ms =
    start_with_user (merge [] (flush_tool_results (take_messages c ms initial)).messages)

-- `openai_chat_to_anthropic_messages`
unfoldable pub openai_chat_to_anthropic_messages : Codec → ChatBody → Option ℕ → MessagesBody
unfolding take_messages convert_messages resolve_max_tokens openai_tools_to_anthropic
    openai_tool_choice_to_anthropic
openai_chat_to_anthropic_messages c b model_max_output_tokens = record {
  model = b.model;
  messages = convert_messages c b.messages;
  max_tokens = resolve_max_tokens b.limits model_max_output_tokens;
  system = system_text (take_messages c b.messages initial).system_parts;
  temperature = b.temperature;
  top_p = b.top_p;
  stop_sequences = stop_list b.stop;
  tools = openai_tools_to_anthropic b.tools;
  tool_choice = openai_tool_choice_to_anthropic b.tool_choice;
}
