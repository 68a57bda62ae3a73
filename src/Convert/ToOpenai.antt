-- ===== src/Convert/ToOpenai.antt =====
-- `anthropic_messages_to_openai_chat` of unify_llm/convert.py.
use unify_llm.Prelude.{
  String, Bool, true, false, not, Option, none, List, [], ◌∷◌, ◌++◌, if◌then◌else◌,
}
use unify_llm.Prelude.Text.{is_empty}
use unify_llm.Json.{Json, null, text, object, end, is_truthy, or_else, Codec}
use unify_llm.Convert.{
  Part, text_part, tool_use, tool_result, bare, Content, absent, plain_text, parts, join, as_text,
  result_text, Role, system, tool, assistant, user, ToolCall, ChatMessage,
}
use unify_llm.Convert.Tools.{
  ToolEntry, ToolChoice, anthropic_tools_to_openai, anthropic_tool_choice_to_openai,
}

-- An Anthropic message of a request
pub record Message : Type 0 where
  pub role : Role
  pub content : Content

abbrev pub chat : Role → Content → List ToolCall → String → ChatMessage
chat role content calls tool_call_id = record {
  role = role;
  content = content;
  tool_calls = calls;
  function_call = none;
  tool_call_id = tool_call_id;
  id = "";
}

-- The text, calls and answers of a list of blocks, each kind in its order
unfoldable pub text_parts : List Part → List String
text_parts [] = []
text_parts (text_part t ∷ ps) = t ∷ text_parts ps
text_parts (bare t ∷ ps) = t ∷ text_parts ps
text_parts (_ ∷ ps) = text_parts ps

-- `_json_dumps(b.get("input") or {})`
abbrev pub dumped : Codec → Json → Json
dumped c input = text (c.dumps (or_else input (object end)))

unfoldable pub tool_uses : Codec → List Part → List ToolCall
tool_uses c [] = []
tool_uses c (tool_use id name input ∷ ps) =
    record { id = id; name = name; arguments = dumped c input } ∷ tool_uses c ps
tool_uses c (_ ∷ ps) = tool_uses c ps

unfoldable pub tool_results : List Part → List ChatMessage
unfolding result_text
tool_results [] = []
tool_results (tool_result id content ∷ ps) =
    chat tool (plain_text (result_text content)) [] id ∷ tool_results ps
tool_results (_ ∷ ps) = tool_results ps

-- `role if role in ("user", "assistant") else "user"`
abbrev pub known_role : Role → Role
known_role assistant = assistant
known_role _ = user

-- `if text_parts or not tool_results`
abbrev pub user_text : List String → List ChatMessage → List ChatMessage
user_text [] (r ∷ rs) = []
user_text ts rs = chat user (plain_text (join ts)) [] "" ∷ []

abbrev pub from_list : Codec → Role → List Part → List ChatMessage
from_list c assistant ps =
    chat assistant (plain_text (join (text_parts ps))) (tool_uses c ps) "" ∷ []
from_list c _ ps = tool_results ps ++ user_text (text_parts ps) (tool_results ps)

-- One message of the body
unfoldable pub on_message : Codec → Message → List ChatMessage
unfolding text_parts tool_uses tool_results as_text
on_message c m = elim m.content [
  | absent ↦ chat (known_role m.role) (plain_text (as_text m.content)) [] "" ∷ []
  | plain_text t ↦ chat (known_role m.role) (plain_text t) [] "" ∷ []
  | parts ps ↦ from_list c m.role ps
]

unfoldable pub on_messages : Codec → List Message → List ChatMessage
unfolding on_message
on_messages c [] = []
on_messages c (m ∷ ms) = on_message c m ++ on_messages c ms

-- `if system`
abbrev pub has_content : Content → Bool
has_content absent = false
has_content (plain_text t) = not (is_empty t)
has_content (parts []) = false
has_content (parts (p ∷ ps)) = true

-- The body of an Anthropic request
pub record MessagesBody : Type 0 where
  pub model : Json
  pub system : Content
  pub messages : List Message
  pub max_tokens : Json
  pub max_completion_tokens : Json
  pub temperature : Json
  pub top_p : Json
  pub stop_sequences : Json
  pub tools : List ToolEntry
  pub tool_choice : Option ToolChoice

-- The body of a chat request; a null is left out.
pub record ChatBody : Type 0 where
  pub model : Json
  pub messages : List ChatMessage
  pub max_tokens : Json
  pub temperature : Json
  pub top_p : Json
  pub stop : Json
  pub tools : List ToolEntry
  pub tool_choice : Option ToolChoice

abbrev is_null : Json → Bool
is_null null = true
is_null _ = false

-- `anthropic_messages_to_openai_chat`
unfoldable pub anthropic_messages_to_openai_chat : Codec → MessagesBody → ChatBody
unfolding on_messages as_text anthropic_tools_to_openai anthropic_tool_choice_to_openai
anthropic_messages_to_openai_chat c b = record {
  model = b.model;
  messages =
      (if has_content b.system then chat system (plain_text (as_text b.system)) [] "" ∷ [] else [])
      ++ on_messages c b.messages;
  max_tokens = if is_null b.max_tokens then b.max_completion_tokens else b.max_tokens;
  temperature = b.temperature;
  top_p = b.top_p;
  stop = if is_truthy b.stop_sequences then b.stop_sequences else null;
  tools = anthropic_tools_to_openai b.tools;
  tool_choice = anthropic_tool_choice_to_openai b.tool_choice;
}
