-- ===== src/Convert/Tools.antt =====
-- The tool lists and tool choices of unify_llm/convert.py.
use unify_llm.Prelude.{String, Option, none, some, List, [], ◌∷◌, if◌then◌else◌}
use unify_llm.Prelude.Text.{is_empty, str_eq}
use unify_llm.Json.{Json, null, text, object, end, field, or_else}
use unify_llm.Convert.{or_text}

pub record ToolSpec : Type 0 where
  pub name : String
  pub description : String
  pub input_schema : Json
  pub parameters : Json

-- An item of a tool list: no object, or the keys of the object, and those of its `function` if its
-- type is that and it is an object.
pub data ToolEntry : Type 0 where
  not_object : ToolEntry
  tool_object : Option ToolSpec → ToolSpec → ToolEntry

abbrev pub empty_schema : Json
empty_schema = object (field "type" (text "object") (field "properties" (object end) end))

abbrev pub no_spec : ToolSpec
no_spec = record { name = ""; description = ""; input_schema = null; parameters = null }

-- The items that the converters write
abbrev pub anthropic_tool : String → String → Json → ToolEntry
anthropic_tool name description schema =
    tool_object none
      (record { name = name; description = description; input_schema = schema; parameters = null })

abbrev pub openai_tool : String → String → Json → ToolEntry
openai_tool name description schema =
    tool_object
      (some (record {
        name = name;
        description = description;
        input_schema = null;
        parameters = schema;
      }))
      no_spec

-- `openai_tools_to_anthropic`
unfoldable pub openai_tools_to_anthropic : List ToolEntry → List ToolEntry
openai_tools_to_anthropic [] = []
openai_tools_to_anthropic (not_object ∷ ts) = openai_tools_to_anthropic ts
openai_tools_to_anthropic (tool_object (some fn) t ∷ ts) =
    anthropic_tool fn.name fn.description (or_else fn.parameters empty_schema)
    ∷ openai_tools_to_anthropic ts
openai_tools_to_anthropic (tool_object none t ∷ ts) =
    let rest = openai_tools_to_anthropic ts in
    if is_empty t.name
    then rest
    else anthropic_tool t.name t.description
        (or_else t.input_schema (or_else t.parameters empty_schema))
      ∷ rest

-- `anthropic_tools_to_openai`
unfoldable pub anthropic_tools_to_openai : List ToolEntry → List ToolEntry
anthropic_tools_to_openai [] = []
anthropic_tools_to_openai (not_object ∷ ts) = anthropic_tools_to_openai ts
anthropic_tools_to_openai (tool_object fn t ∷ ts) =
    openai_tool t.name t.description (or_else t.input_schema (or_else t.parameters empty_schema))
    ∷ anthropic_tools_to_openai ts

-- A tool choice: a word, or an object with its type, the name in its `function` and its own name
pub data ToolChoice : Type 0 where
  word : String → ToolChoice
  chosen : String → String → String → ToolChoice

-- `openai_tool_choice_to_anthropic`
unfoldable pub openai_tool_choice_to_anthropic : Option ToolChoice → Option ToolChoice
openai_tool_choice_to_anthropic none = none
openai_tool_choice_to_anthropic (some (word w)) =
    if str_eq w "auto"
    then some (chosen "auto" "" "")
    else if str_eq w "none"
    then none
    else if str_eq w "required"
    then some (chosen "any" "" "")
    else none
openai_tool_choice_to_anthropic (some (chosen type function_name name)) =
    let found = or_text function_name name in
    if is_empty found then none else some (chosen "tool" "" found)

-- `anthropic_tool_choice_to_openai`
unfoldable pub anthropic_tool_choice_to_openai : Option ToolChoice → Option ToolChoice
anthropic_tool_choice_to_openai none = none
anthropic_tool_choice_to_openai (some (word w)) =
    if str_eq w "auto"
    then some (word "auto")
    else if str_eq w "any"
    then some (word "required")
    else none
anthropic_tool_choice_to_openai (some (chosen type function_name name)) =
    if str_eq type "auto"
    then some (word "auto")
    else if str_eq type "any"
    then some (word "required")
    else if str_eq type "tool"
    then (if is_empty name then none else some (chosen "function" name ""))
    else none
