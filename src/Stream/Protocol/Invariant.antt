-- ===== src/Stream/Protocol/Invariant.antt =====
-- What `openai_sse_to_anthropic_sse` of unify_llm/convert.py keeps between two objects, and that a client
-- takes what one object sends.
use unify_llm.Prelude.{
  ℕ, ◌≡◌, refl, ap, sym, ◌∙◌, String, Bool, true, false, ◌||◌, not, Option, none, some, List, [],
  ◌∷◌, ◌++◌, arith, any_of, Option-cases, Bool-cases, inl, inr,
}
use unify_llm.Prelude.Text.{is_empty}
use unify_llm.Stream.{ToolDelta, text_delta, content_block_delta, content_block_stop}
use unify_llm.Stream.ToAnthropic.{
  Slots, State, on_text, index_of, on_tool, on_tools, on_finish, on_usage, close_tools,
}
use unify_llm.Stream.Protocol.{take_event, take_events}
use unify_llm.Stream.Protocol.Taken.{
  take_events-append, tools, client, map-append_one, take_events-nil, inside_with, on_tool-taken,
}
use unify_llm.Stream.Protocol.OpenTools.{Known, Known-append_one, close_tools-append_one, stops}

-- What holds of the converter between two objects; `seen` says whether a tool has been called.
pub record Inv (seen : Bool) (s : State) : Type 0 where
  pub text : s.open_text ≡ not seen
  pub none_yet : s.open_text ≡ true → s.tool_index_by_slot ≡ []
  pub known : Known s.open_tools s.tool_index_by_slot
  pub closes : close_tools s.open_tools s.tool_index_by_slot ≡ stops s.tool_index_by_slot

index_of-none_yet : (k i : ℕ) (l : Slots) → l ≡ [] → index_of k l ≡ some i → ⊥
unfolding index_of
index_of-none_yet k i [] e h = cc
index_of-none_yet k i (x ∷ l) e h = cc

shut_by :
    (k i : ℕ) (s : State)
    → (s.open_text ≡ true → s.tool_index_by_slot ≡ [])
    → index_of k s.tool_index_by_slot ≡ some i
    → s.open_text ≡ false
shut_by k i s none_yet there = elim (Bool-cases s.open_text) [
  | inl up ↦ elim (index_of-none_yet k i s.tool_index_by_slot (none_yet up) there) [ ]
  | inr down ↦ down
]

on_tool-Inv : (tc : ToolDelta) (seen : Bool) (s : State) → Inv seen s → Inv true (on_tool tc s).1
unfolding on_tool
on_tool-Inv tc seen s v = elim (Option-cases (index_of tc.slot s.tool_index_by_slot)) [
  | inl new ↦
      rw (new, on_tool)
        (record {
          text = refl;
          none_yet = λ h. cc;
          known = Known-append_one tc.slot s.next_index s.open_tools s.tool_index_by_slot v.known;
          closes =
              close_tools-append_one tc.slot s.next_index s.open_tools s.tool_index_by_slot new
                v.known
              ∙ ap (λ t. t ++ content_block_stop s.next_index ∷ []) v.closes
              ∙ sym (
                  map-append_one (λ e. content_block_stop e.1) s.tool_index_by_slot
                    (tc.slot, s.next_index));
        })
  | inr (i, there) ↦
      rw (there, on_tool)
        (record {
          text = shut_by tc.slot i s v.none_yet there;
          none_yet = v.none_yet;
          known = v.known;
          closes = v.closes;
        })
]

pub on_tools-Inv :
    (tcs : List ToolDelta) (seen : Bool) (s : State)
    → Inv seen s
    → Inv (seen || any_of (λ t. true) tcs) (on_tools tcs s).1
unfolding on_tools
on_tools-Inv [] true s v = v
on_tools-Inv [] false s v = v
on_tools-Inv (tc ∷ tcs) true s v = on_tools-Inv tcs true (on_tool tc s).1 (on_tool-Inv tc true s v)
on_tools-Inv (tc ∷ tcs) false s v =
    on_tools-Inv tcs true (on_tool tc s).1 (on_tool-Inv tc false s v)

pub on_tools-taken :
    (tcs : List ToolDelta) (seen : Bool) (s : State)
    → Inv seen s
    → take_events (on_tools tcs s).0 (client s) ≡ some (client (on_tools tcs s).1)
unfolding on_tools
on_tools-taken [] seen s v = take_events-nil (client s)
on_tools-taken (tc ∷ tcs) seen s v =
    take_events-append (on_tool tc s).0 (on_tools tcs (on_tool tc s).1).0 (client s)
      (client (on_tool tc s).1) (on_tool-taken tc s v.none_yet)
    ∙ on_tools-taken tcs true (on_tool tc s).1 (on_tool-Inv tc seen s v)

-- The text block, if it is open, takes a text.
text_taken :
    (text : String) (n : ℕ) (bs : List (ℕ × Bool))
    → take_events (content_block_delta 0 (text_delta text) ∷ []) (inside_with n ((0, false) ∷ bs))
      ≡ some (inside_with n ((0, false) ∷ bs))
unfolding take_events take_event
text_taken text n bs = ground arith

pub on_text-taken :
    (text : String) (seen : Bool) (s : State)
    → Inv seen s
    → (is_empty text || not seen) ≡ true
    → take_events (on_text text s).0 (client s) ≡ some (client (on_text text s).1)
unfolding on_text take_events take_event
on_text-taken String.[] seen s v h = refl
on_text-taken (String.◌∷◌ c t) true s v h = cc
on_text-taken (String.◌∷◌ c t) false s v h =
    rw (v.text) (text_taken (String.◌∷◌ c t) s.next_index (tools s.tool_index_by_slot))

pub on_text-Inv :
    (text : String) (seen : Bool) (s : State) → Inv seen s → Inv seen (on_text text s).1
unfolding on_text
on_text-Inv String.[] seen s v = v
on_text-Inv (String.◌∷◌ c t) seen s v = record {
  text = v.text;
  none_yet = v.none_yet;
  known = v.known;
  closes = v.closes;
}

pub on_usage-Inv :
    (u : Option (ℕ × ℕ)) (seen : Bool) (s : State) → Inv seen s → Inv seen (on_usage u s)
unfolding on_usage
on_usage-Inv none seen s v = v
on_usage-Inv (some (a, b)) seen s v = record {
  text = v.text;
  none_yet = v.none_yet;
  known = v.known;
  closes = v.closes;
}

pub client-on_usage : (u : Option (ℕ × ℕ)) (s : State) → client (on_usage u s) ≡ client s
unfolding on_usage
client-on_usage none s = refl
client-on_usage (some (a, b)) s = refl

pub client-on_finish : (fr : String) (s : State) → client (on_finish fr s) ≡ client s
client-on_finish String.[] s = refl
client-on_finish (String.◌∷◌ c t) s = refl

pub on_finish-Inv : (fr : String) (seen : Bool) (s : State) → Inv seen s → Inv seen (on_finish fr s)
on_finish-Inv String.[] seen s v = v
on_finish-Inv (String.◌∷◌ c t) seen s v = record {
  text = v.text;
  none_yet = v.none_yet;
  known = v.known;
  closes = v.closes;
}
