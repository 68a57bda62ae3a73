-- ===== src/Stream.antt =====
-- The two stream converters of unify_llm/convert.py, on the JSON objects of the streams: of an object
-- there is what the converters read.
pub mod ToAnthropic
pub mod ToOpenai
pub mod Text
pub mod Protocol
mod Tests
use unify_llm.Prelude.{ℕ, String, Option, List}

-- One item of `delta.tool_calls`; a missing text is empty, a missing index 0.
pub record ToolDelta : Type 0 where
  pub slot : ℕ
  pub id : String
  pub name : String
  pub arguments : String

-- The first choice of a chunk: the texts of its delta and its finish reason.
pub record Choice : Type 0 where
  pub content : String
  pub reasoning_content : String
  pub reasoning : String
  pub thinking : String
  pub tool_calls : List ToolDelta
  pub finish_reason : String

-- An OpenAI chunk: its usage, if that has a key of the two, and its first choice.
pub record Chunk : Type 0 where
  pub usage : Option (ℕ × ℕ)
  pub choice : Option Choice

-- The id of a tool block: the upstream's, or `toolu_` or `call_` and the slot.
pub data BlockId : Type 0 where
  given : String → BlockId
  toolu call : ℕ → BlockId

pub data Block : Type 0 where
  text_block : Block
  tool_use : BlockId → String → Block

pub data Delta : Type 0 where
  text_delta : String → Delta
  input_json_delta : String → Delta

-- An event of an Anthropic stream, with the usage that it carries.
pub data Event : Type 0 where
  message_start : Option (ℕ × ℕ) → Event
  content_block_start : ℕ → Block → Event
  content_block_delta : ℕ → Delta → Event
  content_block_stop : ℕ → Event
  message_delta : String → Option (ℕ × ℕ) → Event
  message_stop : Event
  error : String → Event
