-- ===== src/Stream/Text.antt =====
-- The text that passes through the stream converters of unify_llm/convert.py.
use unify_llm.Prelude.{
  ℕ, ◌≡◌, refl, ap, sym, ◌∙◌, String, Bool, not, if◌then◌else◌, none, some, List, [], ◌∷◌, ◌++◌,
  if_either, Option-cases, Bool-cases, inl, inr,
}
use unify_llm.Prelude.Text.{◌+str◌, is_empty, str_assoc, str_nil}
use unify_llm.Stream.{
  ToolDelta, Choice, Chunk, text_block, tool_use, text_delta, input_json_delta, Event,
  message_start, content_block_start, content_block_delta, content_block_stop, message_delta,
  message_stop, error,
}
use unify_llm.Stream.ToAnthropic.{
  State, delta_text, on_text, index_of, arguments_at, on_tool, on_tools, on_choice, on_chunk,
  on_chunks, close_tools, closing, on_usage, to_anthropic, initial, last_events,
}
use unify_llm.Stream.ToOpenai
use unify_llm.Stream.ToOpenai.{
  Out, role, content, tool_start, tool_arguments, finished, usage_only, failed, done, on_event,
  on_events, to_openai, last_usage,
}

-- The text of one event, of one chunk that is sent, and of one chunk that came in.
abbrev pub event_text : Event → String
event_text (content_block_delta i (text_delta t)) = t
event_text _ = ""

abbrev pub out_text : Out → String
out_text (content t) = t
out_text _ = ""

-- The first text that is not empty
abbrev pub first_text : List String → String
first_text [] = ""
first_text (String.[] ∷ ts) = first_text ts
first_text (String.◌∷◌ c t ∷ ts) = String.◌∷◌ c t

-- The text of a chunk is that of its first choice: the content, or else the first of the keys for
-- reasoning that is not empty.
abbrev pub chunk_text : Chunk → String
chunk_text k = elim k.choice [
  | none ↦ ""
  | some c ↦ first_text (c.content ∷ c.reasoning_content ∷ c.reasoning ∷ c.thinking ∷ [])
]

abbrev or_text : String → String → String
or_text t rest = if not (is_empty t) then t else rest

first_text-or : (t : String) (ts : List String) → or_text t (first_text ts) ≡ first_text (t ∷ ts)
first_text-or String.[] ts = refl
first_text-or (String.◌∷◌ c t) ts = refl

first_text-last : (t : String) → t ≡ first_text (t ∷ [])
first_text-last String.[] = refl
first_text-last (String.◌∷◌ c t) = refl

delta_text-eq-first_text :
    (c : Choice)
    → delta_text c ≡ first_text (c.content ∷ c.reasoning_content ∷ c.reasoning ∷ c.thinking ∷ [])
unfolding delta_text
delta_text-eq-first_text c =
    ap (or_text c.content) (
      ap (or_text c.reasoning_content) (
        ap (or_text c.reasoning) (first_text-last c.thinking)
        ∙ first_text-or c.reasoning (c.thinking ∷ []))
      ∙ first_text-or c.reasoning_content (c.reasoning ∷ c.thinking ∷ []))
    ∙ first_text-or c.content (c.reasoning_content ∷ c.reasoning ∷ c.thinking ∷ [])

module _ {ℓ} {A : Type ℓ} (f : A → String) where
  -- The texts of a stream, one after the other.
  abbrev pub all_text : List A → String
  all_text [] = ""
  all_text (x ∷ xs) = f x +str all_text xs

  pub all_text-append : (xs ys : List A) → all_text (xs ++ ys) ≡ all_text xs +str all_text ys
  all_text-append [] ys = refl
  all_text-append (x ∷ xs) ys =
      ap (λ t. f x +str t) (all_text-append xs ys)
      ∙ sym (str_assoc (f x) (all_text xs) (all_text ys))

on_text-text : (t : String) (s : State) → all_text event_text (on_text t s).0 ≡ t
unfolding on_text
on_text-text String.[] s = refl
on_text-text (String.◌∷◌ c t) s = str_nil (String.◌∷◌ c t)

arguments_at-text : (i : ℕ) (args : String) → all_text event_text (arguments_at i args) ≡ ""
arguments_at-text i String.[] = refl
arguments_at-text i (String.◌∷◌ c t) = refl

-- A tool delta sends no text.
on_tool-text : (tc : ToolDelta) (s : State) → all_text event_text (on_tool tc s).0 ≡ ""
unfolding on_tool
on_tool-text tc s = elim (Option-cases (index_of tc.slot s.tool_index_by_slot)) [
  | inl new ↦ (elim (Bool-cases s.open_text) [
    | inl open_now ↦ rw (new, open_now, on_tool) (arguments_at-text s.next_index tc.arguments)
    | inr shut ↦ rw (new, shut, on_tool) (arguments_at-text s.next_index tc.arguments)
  ])
  | inr (i, known) ↦ rw (known, on_tool) (arguments_at-text i tc.arguments)
]

on_tools-text : (tcs : List ToolDelta) (s : State) → all_text event_text (on_tools tcs s).0 ≡ ""
unfolding on_tools
on_tools-text [] s = refl
on_tools-text (tc ∷ tcs) s =
    rw
      (
        all_text-append event_text (on_tool tc s).0 (on_tools tcs (on_tool tc s).1).0,
        on_tool-text tc s,
        on_tools-text tcs (on_tool tc s).1,
      )
      refl

on_choice-text : (c : Choice) (s : State) → all_text event_text (on_choice c s).0 ≡ delta_text c
unfolding on_choice
on_choice-text c s =
    let (es, s') = on_text (delta_text c) s in
    rw
      (
        all_text-append event_text (on_text (delta_text c) s).0
            (on_tools c.tool_calls (on_text (delta_text c) s).1).0,
        on_text-text (delta_text c) s,
        on_tools-text c.tool_calls (on_text (delta_text c) s).1,
      )
      (str_nil (delta_text c))

on_chunk-text : (k : Chunk) (s : State) → all_text event_text (on_chunk k s).0 ≡ chunk_text k
unfolding on_chunk
on_chunk-text k s = elim (Option-cases k.choice) [
  | inl gone ↦ rw (gone, on_chunk) refl
  | inr (c, there) ↦
      rw (there, on_chunk) (on_choice-text c (on_usage k.usage s) ∙ delta_text-eq-first_text c)
]

on_chunks-text :
    (ks : List Chunk) (s : State) → all_text event_text (on_chunks ks s).0 ≡ all_text chunk_text ks
unfolding on_chunks
on_chunks-text [] s = refl
on_chunks-text (k ∷ ks) s =
    rw
      (
        all_text-append event_text (on_chunk k s).0 (on_chunks ks (on_chunk k s).1).0,
        on_chunk-text k s,
        on_chunks-text ks (on_chunk k s).1,
      )
      refl

close_tools-text :
    (slots : List ℕ) (l : List (ℕ × ℕ)) → all_text event_text (close_tools slots l) ≡ ""
unfolding close_tools
close_tools-text [] l = refl
close_tools-text (slot ∷ slots) l = elim (Option-cases (index_of slot l)) [
  | inl gone ↦ rw (gone, close_tools) refl
  | inr (i, there) ↦ rw (there, close_tools) (close_tools-text slots l)
]

closing-text : (s : State) → all_text event_text (closing s) ≡ ""
unfolding closing
closing-text s =
    let tools = close_tools s.open_tools s.tool_index_by_slot in
    let rest : all_text event_text (tools ++ last_events s) ≡ "" =
      rw
        (
          all_text-append event_text tools (last_events s),
          close_tools-text s.open_tools s.tool_index_by_slot,
        )
        refl in
    elim (Bool-cases s.open_text) [
      | inl open_now ↦ rw (open_now, closing) rest
      | inr shut ↦ rw (shut, closing) rest
    ]

-- The text deltas of the Anthropic stream are the texts of the OpenAI stream, in their order, whatever
-- tools are called in between.
to_anthropic-text :
    (ks : List Chunk) → all_text event_text (to_anthropic ks) ≡ all_text chunk_text ks
unfolding to_anthropic
to_anthropic-text ks =
    rw
      (
        all_text-append event_text (on_chunks ks initial).0 (closing (on_chunks ks initial).1),
        on_chunks-text ks initial,
        closing-text (on_chunks ks initial).1,
      )
      (str_nil (all_text chunk_text ks))

last_usage-text :
    (include : Bool) (s : ToOpenai.State) → all_text out_text (last_usage include s) ≡ ""
last_usage-text include s =
    if_either (λ l. all_text out_text l ≡ "") s.saw_usage _ _
      (λ _.
        if_either (λ l. all_text out_text l ≡ "") include _ _ (λ _. refl)
          (λ _.
            if_either (λ l. all_text out_text l ≡ "") s.usage_emitted _ _ (λ _. refl) (λ _. refl)))
      (λ _. refl)

on_event-text :
    (include : Bool) (e : Event) (s : ToOpenai.State)
    → all_text out_text (on_event include e s).0 ≡ event_text e
unfolding on_event
on_event-text include (message_start u) s = refl
on_event-text include (content_block_start i text_block) s = refl
on_event-text include (content_block_start i (tool_use id name)) s = refl
on_event-text include (content_block_delta i (text_delta String.[])) s = refl
on_event-text include (content_block_delta i (text_delta (String.◌∷◌ c t))) s =
    str_nil (String.◌∷◌ c t)
on_event-text include (content_block_delta i (input_json_delta String.[])) s = refl
on_event-text include (content_block_delta i (input_json_delta (String.◌∷◌ c t))) s = refl
on_event-text include (content_block_stop i) s = refl
on_event-text include (message_delta String.[] u) s = refl
on_event-text include (message_delta (String.◌∷◌ c t) u) s = refl
on_event-text include message_stop s =
    rw (all_text-append out_text (last_usage include s) (done ∷ []), last_usage-text include s) refl
on_event-text include (error message) s = refl

on_events-text :
    (include : Bool) (es : List Event) (s : ToOpenai.State)
    → all_text out_text (on_events include es s).0 ≡ all_text event_text es
unfolding on_events
on_events-text include [] s = refl
on_events-text include (e ∷ es) s =
    let s' = ToOpenai.on_usage (ToOpenai.usage_of e) s in
    rw
      (
        all_text-append out_text (on_event include e s').0
            (on_events include es (on_event include e s').1).0,
        on_event-text include e s',
        on_events-text include es (on_event include e s').1,
      )
      refl

-- The contents of the OpenAI stream are the text deltas of the Anthropic stream, in their order.
to_openai-text :
    (include : Bool) (es : List Event)
    → all_text out_text (to_openai include es) ≡ all_text event_text es
unfolding to_openai
to_openai-text include es = on_events-text include es ToOpenai.initial

-- A stream that is converted to Anthropic and back has the same text: its contents, one after the other,
-- are the texts of the chunks that came in, each chunk's being the first of `content`,
-- `reasoning_content`, `reasoning` and `thinking` that is not empty.
pub round_trip-text :
    (include : Bool) (ks : List Chunk)
    → all_text out_text (to_openai include (to_anthropic ks)) ≡ all_text chunk_text ks
round_trip-text include ks = to_openai-text include (to_anthropic ks) ∙ to_anthropic-text ks
