-- ===== src/Stream/Protocol.antt =====
-- What a client of an Anthropic stream expects of its content blocks, and when the converted stream of
-- `openai_sse_to_anthropic_sse` (unify_llm/convert.py) is such a stream.
pub mod Taken
pub mod OpenTools
pub mod Invariant
pub mod Converted
use unify_llm.Prelude.{
  ℕ, ◌+◌, ◌≡◌, refl, ap, sym, ◌∙◌, String, Bool, true, false, ◌&&◌, ◌||◌, not, Option, none, some,
  List, [], ◌∷◌, ◌++◌, map, arith, ◌==◌, if◌then◌else◌, any_of, if_either, Option-cases, Bool-cases,
  inl, inr,
}
use unify_llm.Prelude.Text.{is_empty}
use unify_llm.Stream.{
  ToolDelta, Choice, Chunk, Block, text_block, tool_use, Delta, text_delta, input_json_delta, Event,
  message_start, content_block_start, content_block_delta, content_block_stop, message_delta,
  message_stop, error,
}
use unify_llm.Stream.ToAnthropic.{
  Slots, State, delta_text, on_text, index_of, arguments_at, opened, on_tool, on_tools, on_finish,
  on_choice, on_usage, on_chunk, on_chunks, close_tools, last_events, closing, to_anthropic,
  initial,
}

pub data Phase : Type 0 where
  awaiting inside ended stopped : Phase

-- The client: its open blocks, each with whether it is a tool's, and the index that comes next.
pub record Client : Type 0 where
  pub phase : Phase
  pub next : ℕ
  pub blocks : List (ℕ × Bool)

abbrev pub is_tool_block : Block → Bool
is_tool_block text_block = false
is_tool_block (tool_use id name) = true

abbrev pub is_tool_delta : Delta → Bool
is_tool_delta (text_delta t) = false
is_tool_delta (input_json_delta t) = true

abbrev eqb : Bool → Bool → Bool
eqb a b = if a then b else not b

abbrev pub is_block : ℕ → Bool → ℕ × Bool → Bool
is_block i tool (j, t) = (j == i) && eqb t tool

-- The blocks without the first one of this index; none if it is not open.
pub close_block : ℕ → List (ℕ × Bool) → Option (List (ℕ × Bool))
close_block i [] = none
close_block i ((j, t) ∷ bs) =
    if j == i
    then some bs
    else elim (close_block i bs) [ none ↦ none | some cs ↦ some ((j, t) ∷ cs) ]

abbrev is_inside : Phase → Bool
is_inside inside = true
is_inside _ = false

abbrev is_nil : List (ℕ × Bool) → Bool
is_nil [] = true
is_nil (b ∷ bs) = false

abbrev pub closed_to : Client → Option (List (ℕ × Bool)) → Option Client
closed_to c none = none
closed_to c (some bs) = some (record c { blocks = bs })

-- What a client takes: a block starts at the next index, a delta goes to an open block of its kind, a
-- stop to an open block, and the message ends when every block has been stopped.
unfoldable pub take_event : Event → Client → Option Client
unfolding close_block
take_event (message_start u) c = elim c.phase [
  | awaiting ↦ some (record c { phase = inside })
  | _ ↦ none
]
take_event (content_block_start i b) c =
    if is_inside c.phase && (c.next == i)
    then some (record c { next = c.next + 1; blocks = c.blocks ++ (i, is_tool_block b) ∷ [] })
    else none
take_event (content_block_delta i d) c =
    if is_inside c.phase && any_of (is_block i (is_tool_delta d)) c.blocks then some c else none
take_event (content_block_stop i) c =
    if is_inside c.phase then closed_to c (close_block i c.blocks) else none
take_event (message_delta r u) c =
    if is_inside c.phase && is_nil c.blocks then some (record c { phase = ended }) else none
take_event message_stop c = elim c.phase [ ended ↦ some (record c { phase = stopped }) | _ ↦ none ]
take_event (error m) c = none

abbrev then_take : Option Client → (Client → Option Client) → Option Client
then_take none f = none
then_take (some c) f = f c

unfoldable pub take_events : List Event → Client → Option Client
take_events [] c = some c
take_events (e ∷ es) c = then_take (take_event e c) (take_events es)

abbrev pub new_client : Client
new_client = record { phase = awaiting; next = 0; blocks = [] }

-- The client has taken a whole message.
abbrev pub IsComplete : Option Client → Type 0
IsComplete none = ⊥
IsComplete (some c) = (c.phase ≡ stopped) × (c.blocks ≡ [])

-- No object brings text after one that has called a tool.
unfoldable pub text_first : Bool → List Chunk → Bool
unfolding delta_text
text_first seen [] = true
text_first seen (k ∷ ks) = elim k.choice [
  | none ↦ text_first seen ks
  | some c ↦
      (is_empty (delta_text c) || not seen)
      && text_first (seen || any_of (λ t. true) c.tool_calls) ks
]
