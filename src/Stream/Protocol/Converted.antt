-- ===== src/Stream/Protocol/Converted.antt =====
-- `openai_sse_to_anthropic_sse` of unify_llm/convert.py keeps the order that a client expects, as long
-- as no text follows a tool call.
use mathlib.Core.Path.{subst}
use unify_llm.Prelude.{
  ℕ, ◌≡◌, refl, ap, sym, ◌∙◌, Bool, true, false, ◌&&◌, ◌||◌, not, none, some, List, [], ◌∷◌, ◌++◌,
  any_of, Option-cases, inl, inr,
}
use unify_llm.Prelude.Text.{is_empty}
use unify_llm.Stream.{Choice, Chunk, Event}
use unify_llm.Stream.ToAnthropic.{
  Slots, State, delta_text, on_text, on_tools, on_choice, on_usage, on_chunk, on_chunks,
  close_tools, last_events, closing, to_anthropic, initial,
}
use unify_llm.Stream.Protocol.{take_event, take_events, new_client, IsComplete, text_first}
use unify_llm.Stream.Protocol.Taken.{
  take_events-append, tools, client, take_events-nil, inside_with, stop_first,
}
use unify_llm.Stream.Protocol.OpenTools.{stops}
use unify_llm.Stream.Protocol.Invariant.{
  Inv, on_tools-Inv, on_tools-taken, on_text-taken, on_text-Inv, on_usage-Inv, client-on_usage,
  client-on_finish, on_finish-Inv,
}

on_choice-Inv :
    (c : Choice) (seen : Bool) (s : State)
    → Inv seen s
    → Inv (seen || any_of (λ t. true) c.tool_calls) (on_choice c s).1
unfolding on_choice
on_choice-Inv c seen s v =
    on_finish-Inv c.finish_reason (seen || any_of (λ t. true) c.tool_calls)
      (on_tools c.tool_calls (on_text (delta_text c) s).1).1
      (on_tools-Inv c.tool_calls seen (on_text (delta_text c) s).1
        (on_text-Inv (delta_text c) seen s v))

on_choice-taken :
    (c : Choice) (seen : Bool) (s : State)
    → Inv seen s
    → (is_empty (delta_text c) || not seen) ≡ true
    → take_events (on_choice c s).0 (client s) ≡ some (client (on_choice c s).1)
unfolding on_choice
on_choice-taken c seen s v h =
    let s' = (on_text (delta_text c) s).1 in
    take_events-append (on_text (delta_text c) s).0 (on_tools c.tool_calls s').0 (client s)
      (client s') (on_text-taken (delta_text c) seen s v h)
    ∙ on_tools-taken c.tool_calls seen s' (on_text-Inv (delta_text c) seen s v)
    ∙ ap some (sym (client-on_finish c.finish_reason (on_tools c.tool_calls s').1))

-- The client takes these events and follows the converter, which keeps its invariant.
abbrev Follows : State → List Event × State → Bool → Type 0
Follows s out seen = (take_events out.0 (client s) ≡ some (client out.1)) × Inv seen out.1

on_chunk-none :
    (k : Chunk) (seen : Bool) (s : State)
    → k.choice ≡ none
    → Inv seen s
    → Follows s (on_chunk k s) seen
unfolding on_chunk
on_chunk-none k seen s e v =
    rw (e, on_chunk)
      (
        take_events-nil (client s) ∙ ap some (sym (client-on_usage k.usage s)),
        on_usage-Inv k.usage seen s v,
      )

on_chunk-some :
    (k : Chunk) (c : Choice) (seen : Bool) (s : State)
    → k.choice ≡ some c
    → (is_empty (delta_text c) || not seen) ≡ true
    → Inv seen s
    → Follows s (on_chunk k s) (seen || any_of (λ t. true) c.tool_calls)
unfolding on_chunk
on_chunk-some k c seen s e h v =
    let v' = on_usage-Inv k.usage seen s v in
    rw (e, on_chunk)
      (
        ap (take_events (on_choice c (on_usage k.usage s)).0) (sym (client-on_usage k.usage s))
            ∙ on_choice-taken c seen (on_usage k.usage s) v' h,
        on_choice-Inv c seen (on_usage k.usage s) v',
      )

and-true : (a b : Bool) → (a && b) ≡ true → (a ≡ true) × (b ≡ true)
and-true true true h = (refl, refl)
and-true true false h = cc
and-true false b h = cc

-- What holds once the objects have been converted, from a state on.
Converts : List Chunk → State → Type 0
Converts ks s = (seen : Bool) × Follows s (on_chunks ks s) seen

Converts-chunk :
    (k : Chunk) (ks : List Chunk) (seen : Bool) (s : State)
    → Follows s (on_chunk k s) seen
    → Converts ks (on_chunk k s).1
    → Converts (k ∷ ks) s
unfolding Converts on_chunks
Converts-chunk k ks seen s (e, v) (b, (taken, w)) = (
  b,
  (
    take_events-append (on_chunk k s).0 (on_chunks ks (on_chunk k s).1).0 (client s)
          (client (on_chunk k s).1) e
        ∙ taken,
    w,
  ),
)

on_chunks-Converts :
    (ks : List Chunk) (seen : Bool) (s : State)
    → text_first seen ks ≡ true
    → Inv seen s
    → Converts ks s
unfolding Converts on_chunks text_first
on_chunks-Converts [] seen s h v = (seen, (take_events-nil (client s), v))
on_chunks-Converts (k ∷ ks) seen s h v = elim (Option-cases k.choice) [
  | inl e ↦
      let f = on_chunk-none k seen s e v in
      Converts-chunk k ks seen s f (on_chunks-Converts ks seen (on_chunk k s).1 (rw (e) at h) f.1)
  | inr (c, e) ↦
      let p = and-true (is_empty (delta_text c) || not seen) _ (rw (e, text_first) at h) in
      let f = on_chunk-some k c seen s e p.0 v in
      Converts-chunk k ks (seen || any_of (λ t. true) c.tool_calls) s f
        (on_chunks-Converts ks (seen || any_of (λ t. true) c.tool_calls) (on_chunk k s).1 p.1 f.1)
]

stops_taken :
    (l : Slots) (n : ℕ) (es : List Event)
    → take_events (stops l ++ es) (inside_with n (tools l)) ≡ take_events es (inside_with n [])
stops_taken [] n es = refl
stops_taken ((k, i) ∷ l) n es = stop_first n i true (tools l) (stops l ++ es) ∙ stops_taken l n es

last_taken : (s : State) (n : ℕ) → IsComplete (take_events (last_events s) (inside_with n []))
unfolding take_events take_event
last_taken s n = (refl, refl)

closing-taken :
    (seen : Bool) (s : State)
    → Inv seen s
    → take_events (closing s) (client s) ≡ take_events (last_events s) (inside_with s.next_index [])
unfolding closing
closing-taken true s v =
    rw (v.text, v.closes) (stops_taken s.tool_index_by_slot s.next_index (last_events s))
closing-taken false s v =
    rw (v.text, v.closes, v.none_yet v.text) (stop_first s.next_index 0 false [] (last_events s))

initial-Inv : Inv false initial
unfolding close_tools
initial-Inv = record { text = refl; none_yet = λ h. refl; known = tt; closes = refl }

-- If no object brings text after one that has called a tool, a client takes every event of the
-- converted stream in order, ends with no block open and has seen the message stop.
pub to_anthropic-IsComplete :
    (ks : List Chunk)
    → text_first false ks ≡ true
    → IsComplete (take_events (to_anthropic ks) new_client)
unfolding to_anthropic take_events take_event Converts
to_anthropic-IsComplete ks h =
    let (b, (taken, v)) = on_chunks-Converts ks false initial h initial-Inv in
    let s = (on_chunks ks initial).1 in
    subst IsComplete
      (sym (
        take_events-append (on_chunks ks initial).0 (closing s) (client initial) (client s) taken
        ∙ closing-taken b s v))
      (last_taken s s.next_index)
