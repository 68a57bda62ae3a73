-- ===== src/Convert.antt =====
-- The messages of unify_llm/convert.py. Of a JSON object there is what the converters read, a text that
-- is missing or null being empty; what they answer to bodies of other shapes is left out.
pub mod Tools
pub mod ToAnthropic
pub mod ToOpenai
pub mod Responses
pub mod Turns
pub mod ToolBlocks
pub mod ToolCalls
pub mod RoundTrip
pub mod Round
mod Tests
use unify_llm.Prelude.{
  ℕ, String, Bool, true, false, Option, none, some, List, [], ◌∷◌, if◌then◌else◌,
}
use unify_llm.Prelude.Text.{is_empty, ◌+str◌}
use unify_llm.Json.{Json}
use unify_llm.StopReasons

-- What a tool answered: null, a text, or the text of each block of a list
pub data ToolContent : Type 0 where
  nothing : ToolContent
  plain : String → ToolContent
  texts : List String → ToolContent

-- An item of a content list: a text block, a call of a tool, an answer, an `image_url`, an object of
-- another type with its text, or a bare text.
pub data Part : Type 0 where
  text_part : String → Part
  tool_use : String → String → Json → Part
  tool_result : String → ToolContent → Part
  image_url : Part
  other_part : String → Part
  bare : String → Part

pub data Content : Type 0 where
  absent : Content
  plain_text : String → Content
  parts : List Part → Content

-- The text of an item, as `_as_text` takes it from a list
abbrev pub part_text : Part → String
part_text (text_part t) = t
part_text (other_part t) = t
part_text (bare t) = t
part_text _ = ""

-- `"".join(…)`
abbrev pub join_parts : List Part → String
join_parts [] = ""
join_parts (p ∷ ps) = part_text p +str join_parts ps

abbrev pub join : List String → String
join [] = ""
join (t ∷ ts) = t +str join ts

-- `_as_text` on a content
unfoldable pub as_text : Content → String
as_text absent = ""
as_text (plain_text t) = t
as_text (parts ps) = join_parts ps

-- `rc if isinstance(rc, str) else _as_text(rc)`
unfoldable pub result_text : ToolContent → String
result_text nothing = ""
result_text (plain t) = t
result_text (texts ts) = join ts

pub data Role : Type 0 where
  system developer tool assistant user unknown : Role

-- An item of `tool_calls`; `arguments` is any JSON value.
pub record ToolCall : Type 0 where
  pub id : String
  pub name : String
  pub arguments : Json

-- An OpenAI message
pub record ChatMessage : Type 0 where
  pub role : Role
  pub content : Content
  pub tool_calls : List ToolCall
  pub function_call : Option ToolCall
  pub tool_call_id : String
  pub id : String

pub data Speaker : Type 0 where
  by_user by_assistant : Speaker

-- An Anthropic message
pub record Turn : Type 0 where
  pub speaker : Speaker
  pub content : Content

-- `a or b` on texts
abbrev pub or_text : String → String → String
or_text a b = if is_empty a then b else a
