-- ===== src/Convert/ToolCalls.antt =====
-- The tool calls and answers that the messages of a chat stand for, described apart from the blocks that
-- `openai_chat_to_anthropic_messages` of unify_llm/convert.py builds for them.
use unify_llm.Prelude.{
  String, ◌≡◌, refl, ap, if◌then◌else◌, Option, none, some, List, [], ◌∷◌, ◌++◌, map, Option-cases,
  inl, inr,
}
use unify_llm.Prelude.Text.{is_empty, ◌+str◌}
use unify_llm.Json.{
  Json, null, boolean, number, decimal, text, array, object, end, field, Codec, parse_json_arg,
}
use unify_llm.Convert.{
  plain, Part, text_part, tool_use, tool_result, image_url, other_part, bare, Content, absent,
  plain_text, parts, join_parts, as_text, Role, tool, assistant, ToolCall, ChatMessage, or_text,
}
use unify_llm.Convert.ToAnthropic.{call_block, legacy_block, result_block}

-- A text, or where it is empty another one
abbrev instead_of : String → String → String
instead_of String.[] t = t
instead_of (String.◌∷◌ c s) t = String.◌∷◌ c s

-- The arguments of a call: null and an empty text stand for no arguments, another text for what it
-- loads as or else for itself under `_raw`, and any other value for itself.
abbrev arguments_of : Codec → Json → Json
arguments_of c null = object end
arguments_of c (text String.[]) = object end
arguments_of c (text (String.◌∷◌ d t)) = elim (c.loads (String.◌∷◌ d t)) [
  | none ↦ object (field "_raw" (text (String.◌∷◌ d t)) end)
  | some v ↦ v
]
arguments_of c (boolean b) = boolean b
arguments_of c (number n) = number n
arguments_of c (decimal d) = decimal d
arguments_of c (array vs) = array vs
arguments_of c (object fs) = object fs

-- The words of a list of parts: images, calls and answers have none.
abbrev words_in : List Part → String
words_in [] = ""
words_in (text_part t ∷ ps) = t +str words_in ps
words_in (other_part t ∷ ps) = t +str words_in ps
words_in (bare t ∷ ps) = t +str words_in ps
words_in (tool_use i n v ∷ ps) = "" +str words_in ps
words_in (tool_result i k ∷ ps) = "" +str words_in ps
words_in (image_url ∷ ps) = "" +str words_in ps

abbrev words : Content → String
words absent = ""
words (plain_text t) = t
words (parts ps) = words_in ps

-- The calls in `tool_calls`, each with its own id, name and arguments
abbrev calls : Codec → List ToolCall → List Part
calls c [] = []
calls c (tc ∷ tcs) = tool_use tc.id tc.name (arguments_of c tc.arguments) ∷ calls c tcs

-- The legacy call counts if it has a name; its id is the message's `tool_call_id`, or `call_legacy`.
abbrev legacy_call : Codec → String → String → Json → List Part
legacy_call c id String.[] arguments = []
legacy_call c id (String.◌∷◌ d name) arguments =
    tool_use (instead_of id "call_legacy") (String.◌∷◌ d name) (arguments_of c arguments) ∷ []

abbrev legacy_calls : Codec → String → Option ToolCall → List Part
legacy_calls c id none = []
legacy_calls c id (some f) = legacy_call c id f.name f.arguments

-- The calls and answers that a message of the chat stands for: a tool's message is the answer to its
-- `tool_call_id`, or where that is empty to its `id`; an assistant's has its calls, the legacy one last.
abbrev pub role_tools : Codec → ChatMessage → Role → List Part
role_tools c m tool = tool_result (instead_of m.tool_call_id m.id) (plain (words m.content)) ∷ []
role_tools c m assistant = calls c m.tool_calls ++ legacy_calls c m.tool_call_id m.function_call
role_tools c m _ = []

abbrev pub chat_tools : Codec → List ChatMessage → List Part
chat_tools c [] = []
chat_tools c (m ∷ ms) = role_tools c m m.role ++ chat_tools c ms

-- The blocks that the converter builds are these.

or_text-instead_of : (s t : String) → or_text s t ≡ instead_of s t
or_text-instead_of String.[] t = refl
or_text-instead_of (String.◌∷◌ c s) t = refl

parse_json_arg-arguments_of : (c : Codec) (v : Json) → parse_json_arg c v ≡ arguments_of c v
unfolding parse_json_arg
parse_json_arg-arguments_of c null = refl
parse_json_arg-arguments_of c (text String.[]) = refl
parse_json_arg-arguments_of c (text (String.◌∷◌ d t)) = refl
parse_json_arg-arguments_of c (boolean b) = refl
parse_json_arg-arguments_of c (number n) = refl
parse_json_arg-arguments_of c (decimal d) = refl
parse_json_arg-arguments_of c (array vs) = refl
parse_json_arg-arguments_of c (object fs) = refl

join_parts-words_in : (ps : List Part) → join_parts ps ≡ words_in ps
join_parts-words_in [] = refl
join_parts-words_in (text_part t ∷ ps) = ap (λ w. t +str w) (join_parts-words_in ps)
join_parts-words_in (other_part t ∷ ps) = ap (λ w. t +str w) (join_parts-words_in ps)
join_parts-words_in (bare t ∷ ps) = ap (λ w. t +str w) (join_parts-words_in ps)
join_parts-words_in (tool_use i n v ∷ ps) = ap (λ w. "" +str w) (join_parts-words_in ps)
join_parts-words_in (tool_result i k ∷ ps) = ap (λ w. "" +str w) (join_parts-words_in ps)
join_parts-words_in (image_url ∷ ps) = ap (λ w. "" +str w) (join_parts-words_in ps)

as_text-words : (k : Content) → as_text k ≡ words k
unfolding as_text
as_text-words absent = refl
as_text-words (plain_text t) = refl
as_text-words (parts ps) = join_parts-words_in ps

pub result_block-role_tools :
    (c : Codec) (m : ChatMessage) → result_block m ∷ [] ≡ role_tools c m tool
result_block-role_tools c m =
    rw (or_text-instead_of m.tool_call_id m.id, as_text-words m.content) refl

call_block-calls : (c : Codec) (tcs : List ToolCall) → map (call_block c) tcs ≡ calls c tcs
call_block-calls c [] = refl
call_block-calls c (tc ∷ tcs) =
    rw (parse_json_arg-arguments_of c tc.arguments, call_block-calls c tcs) refl

legacy_named :
    (c : Codec) (id name : String) (arguments : Json)
    → (if is_empty name
        then []
        else tool_use (or_text id "call_legacy") name (parse_json_arg c arguments) ∷ [])
      ≡ legacy_call c id name arguments
legacy_named c id String.[] arguments = refl
legacy_named c id (String.◌∷◌ d name) arguments =
    rw (or_text-instead_of id "call_legacy", parse_json_arg-arguments_of c arguments) refl

legacy_block-legacy_calls :
    (c : Codec) (m : ChatMessage) → legacy_block c m ≡ legacy_calls c m.tool_call_id m.function_call
legacy_block-legacy_calls c m = elim (Option-cases m.function_call) [
  | inl gone ↦ rw gone refl
  | inr (f, there) ↦ rw there (legacy_named c m.tool_call_id f.name f.arguments)
]

pub assistant-role_tools :
    (c : Codec) (m : ChatMessage)
    → map (call_block c) m.tool_calls ++ legacy_block c m ≡ role_tools c m assistant
assistant-role_tools c m = rw (call_block-calls c m.tool_calls, legacy_block-legacy_calls c m) refl
