-- ===== src/Stream/ToAnthropic.antt =====
-- `openai_sse_to_anthropic_sse` of unify_llm/convert.py. `text_index` is 0 throughout, so it is left
-- out, as is the message id. `open_tools` is a set, which has no order of its own; here its members
-- are in the order in which they were added.
use unify_llm.Prelude.{
  ℕ, ◌+◌, max, String, Bool, true, false, not, Option, none, some, List, [], ◌∷◌, ◌++◌, ◌==◌,
  if◌then◌else◌,
}
use unify_llm.Prelude.Text.{is_empty}
use unify_llm.StopReasons.{finish_to_stop}
use unify_llm.Stream.{
  ToolDelta, Choice, Chunk, BlockId, given, toolu, text_block, tool_use, text_delta,
  input_json_delta, Event, message_start, content_block_start, content_block_delta,
  content_block_stop, message_delta, message_stop,
}

abbrev pub Slots : Type 0
Slots = List (ℕ × ℕ)

pub record State : Type 0 where
  pub input_tokens : ℕ
  pub output_tokens : ℕ
  pub saw_usage : Bool
  pub next_index : ℕ
  pub tool_index_by_slot : Slots
  pub open_text : Bool
  pub open_tools : List ℕ
  pub finish_reason : String

abbrev pub initial : State
initial = record {
  input_tokens = 0;
  output_tokens = 0;
  saw_usage = false;
  next_index = 1;
  tool_index_by_slot = [];
  open_text = true;
  open_tools = [];
  finish_reason = "";
}

unfoldable pub index_of : ℕ → Slots → Option ℕ
index_of slot [] = none
index_of slot ((k, i) ∷ l) = if k == slot then some i else index_of slot l

-- The text of a delta: its content, or the first of the other keys that is not empty
unfoldable pub delta_text : Choice → String
delta_text c =
    if not (is_empty c.content)
    then c.content
    else if not (is_empty c.reasoning_content)
    then c.reasoning_content
    else if not (is_empty c.reasoning)
    then c.reasoning
    else c.thinking

unfoldable pub on_usage : Option (ℕ × ℕ) → State → State
on_usage none s = s
on_usage (some (pt, ct)) s = record s {
  input_tokens = max s.input_tokens pt;
  output_tokens = max s.output_tokens ct;
  saw_usage = true;
}

unfoldable pub on_text : String → State → List Event × State
on_text text s = if is_empty text then ([], s) else (
  content_block_delta 0 (text_delta text) ∷ [],
  record s { output_tokens = if s.saw_usage then s.output_tokens else s.output_tokens + 1 },
)

abbrev pub tool_id : ToolDelta → BlockId
tool_id tc = if is_empty tc.id then toolu tc.slot else given tc.id

-- `if args`
abbrev pub arguments_at : ℕ → String → List Event
arguments_at idx args =
    if is_empty args then [] else content_block_delta idx (input_json_delta args) ∷ []

-- A slot that is new closes the text block, if that is open, and opens a block of its own.
abbrev pub opened : ToolDelta → State → State
opened tc s = record s {
  open_text = false;
  tool_index_by_slot = s.tool_index_by_slot ++ (tc.slot, s.next_index) ∷ [];
  next_index = s.next_index + 1;
  open_tools = s.open_tools ++ tc.slot ∷ [];
}

unfoldable pub on_tool : ToolDelta → State → List Event × State
unfolding index_of
on_tool tc s = elim (index_of tc.slot s.tool_index_by_slot) [
  | some idx ↦ (arguments_at idx tc.arguments, s)
  | none ↦ (
    (if s.open_text then content_block_stop 0 ∷ [] else [])
        ++ content_block_start s.next_index (tool_use (tool_id tc) tc.name)
          ∷ arguments_at s.next_index tc.arguments,
    opened tc s,
  )
]

unfoldable pub on_tools : List ToolDelta → State → List Event × State
unfolding on_tool
on_tools [] s = ([], s)
on_tools (tc ∷ tcs) s =
    let (es, s') = on_tool tc s in let (fs, s'') = on_tools tcs s' in (es ++ fs, s'')

-- `if fr: finish_reason = fr`
abbrev pub on_finish : String → State → State
on_finish fr s = if is_empty fr then s else record s { finish_reason = fr }

unfoldable pub on_choice : Choice → State → List Event × State
unfolding on_text on_tools delta_text
on_choice c s =
    let (es, s') = on_text (delta_text c) s in
    let (fs, s'') = on_tools c.tool_calls s' in (es ++ fs, on_finish c.finish_reason s'')

-- One object of the stream
unfoldable pub on_chunk : Chunk → State → List Event × State
unfolding on_choice on_usage
on_chunk k s = elim k.choice [
  | none ↦ ([], on_usage k.usage s)
  | some c ↦ on_choice c (on_usage k.usage s)
]

unfoldable pub on_chunks : List Chunk → State → List Event × State
unfolding on_chunk
on_chunks [] s = ([], s)
on_chunks (k ∷ ks) s =
    let (es, s') = on_chunk k s in let (fs, s'') = on_chunks ks s' in (es ++ fs, s'')

-- `for slot in list(open_tools)`; a slot that the dict does not have would be a KeyError
unfoldable pub close_tools : List ℕ → Slots → List Event
unfolding index_of
close_tools [] l = []
close_tools (slot ∷ slots) l = elim (index_of slot l) [
  | none ↦ []
  | some idx ↦ content_block_stop idx ∷ close_tools slots l
]

-- `message_delta` and `message_stop`
abbrev pub last_events : State → List Event
last_events s =
    message_delta (finish_to_stop s.finish_reason)
      (some (s.input_tokens, max s.output_tokens (if s.saw_usage then 0 else 1)))
    ∷ message_stop
    ∷ []

-- What follows the last object
unfoldable pub closing : State → List Event
unfolding close_tools finish_to_stop
closing s =
    (if s.open_text then content_block_stop 0 ∷ [] else [])
    ++ (close_tools s.open_tools s.tool_index_by_slot ++ last_events s)

-- `openai_sse_to_anthropic_sse`
unfoldable pub to_anthropic : List Chunk → List Event
unfolding on_chunks closing
to_anthropic ks =
    let (es, s) = on_chunks ks initial in
    message_start (some (0, 0)) ∷ content_block_start 0 text_block ∷ (es ++ closing s)
