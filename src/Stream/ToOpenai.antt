-- ===== src/Stream/ToOpenai.antt =====
-- `anthropic_sse_to_openai_sse` of unify_llm/convert.py. The id, the model and the time of the chunks
-- are left out.
use unify_llm.Prelude.{
  ℕ, ◌+◌, max, String, Bool, true, false, ◌&&◌, not, Option, none, some, List, [], ◌∷◌, ◌++◌, ◌==◌,
  if◌then◌else◌,
}
use unify_llm.Prelude.Text.{is_empty}
use unify_llm.StopReasons.{stop_to_finish}
use unify_llm.Stream.{
  BlockId, given, call, tool_use, text_delta, input_json_delta, Event, message_start,
  content_block_start, content_block_delta, message_delta, message_stop, error,
}
use unify_llm.Stream.ToAnthropic.{index_of}

-- (prompt, completion); the total is their sum
abbrev pub Counts : Type 0
Counts = ℕ × ℕ

-- What a chunk says: the deltas, the end with its reason and usage, usage alone (with or without the
-- empty choice), an error, and the mark of the end.
pub data Out : Type 0 where
  role : Out
  content : String → Out
  tool_start : ℕ → BlockId → String → Out
  tool_arguments : ℕ → String → Out
  finished : String → Option Counts → Out
  usage_only : Bool → Counts → Out
  failed : String → Out
  done : Out

pub record State : Type 0 where
  pub input_tokens : ℕ
  pub output_tokens : ℕ
  pub saw_usage : Bool
  pub usage_emitted : Bool
  pub block_tool_slot : List (ℕ × ℕ)
  pub next_tool_slot : ℕ

abbrev pub initial : State
initial = record {
  input_tokens = 0;
  output_tokens = 0;
  saw_usage = false;
  usage_emitted = false;
  block_tool_slot = [];
  next_tool_slot = 0;
}

-- The usage of an event, if it has one
abbrev pub usage_of : Event → Option (ℕ × ℕ)
usage_of (message_start u) = u
usage_of (message_delta r u) = u
usage_of _ = none

unfoldable pub on_usage : Option (ℕ × ℕ) → State → State
on_usage none s = s
on_usage (some (i, o)) s = record s {
  input_tokens = max s.input_tokens i;
  output_tokens = max s.output_tokens o;
  saw_usage = true;
}

abbrev pub counts : State → Counts
counts s = (s.input_tokens, s.output_tokens)

-- `block_tool_slot[bidx] = slot`
unfoldable pub set_slot : ℕ → ℕ → List (ℕ × ℕ) → List (ℕ × ℕ)
set_slot b slot [] = (b, slot) ∷ []
set_slot b slot ((k, i) ∷ l) = if k == b then (k, slot) ∷ l else (k, i) ∷ set_slot b slot l

-- `block_tool_slot.get(bidx, 0)`
abbrev pub slot_or_zero : Option ℕ → ℕ
slot_or_zero none = 0
slot_or_zero (some slot) = slot

abbrev pub started : ℕ → State → State
started b s = record s {
  block_tool_slot = set_slot b s.next_tool_slot s.block_tool_slot;
  next_tool_slot = s.next_tool_slot + 1;
}

-- `cb.get("id") or f"call_{slot}"`
abbrev pub call_id : ℕ → BlockId → BlockId
call_id slot (given id) = if is_empty id then call slot else given id
call_id slot id = id

-- The usage at `message_delta`, and at `message_stop`
abbrev pub final_usage : Bool → State → Option Counts
final_usage include s = if s.saw_usage && not include then some (counts s) else none

abbrev pub last_usage : Bool → State → List Out
last_usage include s =
    if s.saw_usage
    then (if include
        then usage_only false (counts s) ∷ []
        else if s.usage_emitted
        then []
        else usage_only true (counts s) ∷ [])
    else []

-- One event, after its usage has been read
unfoldable pub on_event : Bool → Event → State → List Out × State
unfolding set_slot index_of stop_to_finish
on_event include (content_block_start b (tool_use id name)) s =
    (tool_start s.next_tool_slot (call_id s.next_tool_slot id) name ∷ [], started b s)
on_event include (content_block_delta b (text_delta text)) s =
    (if is_empty text then [] else content text ∷ [], s)
on_event include (content_block_delta b (input_json_delta json)) s = (
  if is_empty json
      then []
      else tool_arguments (slot_or_zero (index_of b s.block_tool_slot)) json ∷ [],
  s,
)
on_event include (message_delta reason u) s = if is_empty reason then ([], s) else (
  finished (stop_to_finish reason) (final_usage include s) ∷ [],
  record s { usage_emitted = s.saw_usage && not include },
)
on_event include message_stop s = (last_usage include s ++ done ∷ [], s)
on_event include (error message) s = (failed message ∷ done ∷ [], s)
on_event include _ s = ([], s)

unfoldable pub on_events : Bool → List Event → State → List Out × State
unfolding on_event on_usage
on_events include [] s = ([], s)
on_events include (e ∷ es) s =
    let (os, s') = on_event include e (on_usage (usage_of e) s) in
    let (ps, s'') = on_events include es s' in (os ++ ps, s'')

-- `anthropic_sse_to_openai_sse`
unfoldable pub to_openai : Bool → List Event → List Out
unfolding on_events
to_openai include es = role ∷ (on_events include es initial).0
