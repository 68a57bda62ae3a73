-- ===== src/Stream/Protocol/Taken.antt =====
-- The client of a stream follows `openai_sse_to_anthropic_sse` of unify_llm/convert.py through one tool
-- delta.
use unify_llm.Prelude.{
  ℕ, ◌+◌, ◌≡◌, refl, ap, ◌∙◌, String, Bool, true, false, some, List, [], ◌∷◌, ◌++◌, map, arith,
  if◌then◌else◌, any_of, any_of-append, Option-cases, Bool-cases, inl, inr,
}
use unify_llm.Stream.{ToolDelta, Block, tool_use, Event, content_block_start, content_block_stop}
use unify_llm.Stream.ToAnthropic.{Slots, State, index_of, arguments_at, on_tool, tool_id}
use unify_llm.Stream.Protocol.{
  inside, Client, is_tool_block, is_block, close_block, take_event, take_events,
}

pub take_events-append :
    (es fs : List Event) (c d : Client)
    → take_events es c ≡ some d
    → take_events (es ++ fs) c ≡ take_events fs d
unfolding take_events
take_events-append [] fs c d h = cc
take_events-append (e ∷ es) fs c d h = elim (Option-cases (take_event e c)) [
  | inl bad ↦ cc (rw bad at h)
  | inr (c', e') ↦ rw e' (take_events-append es fs c' d (rw e' at h))
]

abbrev pub tools : Slots → List (ℕ × Bool)
tools l = map (λ e. (e.1, true)) l

abbrev text_blocks : Bool → List (ℕ × Bool)
text_blocks is_open = if is_open then (0, false) ∷ [] else []

-- The client that has taken what the converter has sent.
abbrev pub client : State → Client
client s = record {
  phase = inside;
  next = s.next_index;
  blocks = text_blocks s.open_text ++ tools s.tool_index_by_slot;
}

-- A tool that has a slot has an open block.
any_of-tools :
    (slot i : ℕ) (l : Slots) → index_of slot l ≡ some i → any_of (is_block i true) (tools l) ≡ true
unfolding index_of
any_of-tools slot i [] h = cc
any_of-tools slot i ((k, j) ∷ l) h = ground (arith, any_of-tools slot i l)

pub map-append_one {ℓ} :
    {B : Type ℓ} (f : ℕ × ℕ → B) (l : Slots) (e : ℕ × ℕ) → map f (l ++ e ∷ []) ≡ map f l ++ f e ∷ []
map-append_one f [] e = refl
map-append_one f (x ∷ l) e = ap (λ t. f x ∷ t) (map-append_one f l e)

pub take_events-nil : (c : Client) → take_events [] c ≡ some c
unfolding take_events
take_events-nil c = refl

arguments_at-taken :
    (i : ℕ) (args : String) (c : Client)
    → c.phase ≡ inside
    → any_of (is_block i true) c.blocks ≡ true
    → take_events (arguments_at i args) c ≡ some c
unfolding take_events take_event
arguments_at-taken i String.[] c h k = refl
arguments_at-taken i (String.◌∷◌ ch t) c h k = ground (arith, h, k)

abbrev pub inside_with : ℕ → List (ℕ × Bool) → Client
inside_with n bs = record { phase = inside; next = n; blocks = bs }

start_lem :
    (n : ℕ) (b : Block) (bs : List (ℕ × Bool))
    → take_event (content_block_start n b) (inside_with n bs)
      ≡ some (inside_with (n + 1) (bs ++ (n, is_tool_block b) ∷ []))
unfolding take_event
start_lem n b bs = ground arith

-- A tool block that starts takes its first arguments.
start_taken :
    (tc : ToolDelta) (n : ℕ) (l : Slots)
    → take_events
        (content_block_start n (tool_use (tool_id tc) tc.name) ∷ arguments_at n tc.arguments)
        (inside_with n (tools l))
      ≡ some (inside_with (n + 1) (tools (l ++ (tc.slot, n) ∷ [])))
unfolding take_events
start_taken tc n l =
    rw
      (
        start_lem n (tool_use (tool_id tc) tc.name) (tools l),
        map-append_one {B = ℕ × Bool} (λ e. (e.1, true)) l (tc.slot, n),
      )
      (arguments_at-taken n tc.arguments (inside_with (n + 1) (tools l ++ (n, true) ∷ [])) refl
        (any_of-append (is_block n true) (tools l) ((n, true) ∷ []) ∙ ground arith))

-- The first open block is stopped.
pub stop_first :
    (n i : ℕ) (tool : Bool) (bs : List (ℕ × Bool)) (es : List Event)
    → take_events (content_block_stop i ∷ es) (inside_with n ((i, tool) ∷ bs))
      ≡ take_events es (inside_with n bs)
unfolding take_events take_event close_block
stop_first n i tool bs es = ground arith

-- One tool delta is taken, and opens its block at the client too.
pub on_tool-taken :
    (tc : ToolDelta) (s : State)
    → (s.open_text ≡ true → s.tool_index_by_slot ≡ [])
    → take_events (on_tool tc s).0 (client s) ≡ some (client (on_tool tc s).1)
unfolding on_tool
on_tool-taken tc s none_yet = elim (Option-cases (index_of tc.slot s.tool_index_by_slot)) [
  | inr (i, known) ↦
      rw (known, on_tool)
        (arguments_at-taken i tc.arguments (client s) refl (
          any_of-append (is_block i true) (text_blocks s.open_text) (tools s.tool_index_by_slot)
          ∙ ground (arith, any_of-tools tc.slot i s.tool_index_by_slot known)))
  | inl new ↦ (elim (Bool-cases s.open_text) [
    | inl text ↦
        rw (new, text, on_tool)
          (stop_first s.next_index 0 false (tools s.tool_index_by_slot) _
            ∙ start_taken tc s.next_index s.tool_index_by_slot)
    | inr shut ↦ rw (new, shut, on_tool) (start_taken tc s.next_index s.tool_index_by_slot)
  ])
]
