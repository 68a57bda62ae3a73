-- ===== src/Convert/ToolBlocks.antt =====
-- The calls and answers of tools that `openai_chat_to_anthropic_messages` of unify_llm/convert.py sends on.
use unify_llm.Prelude.{
  String, ◌≡◌, refl, ap, sym, ◌∙◌, Bool, true, false, some, List, [], ◌∷◌, ◌++◌, map, keep,
  keep-append, append-nil, append_assoc, Option-cases, inl, inr, arith,
}
use unify_llm.Json.{Codec}
use unify_llm.Convert.{
  Part, text_part, tool_use, tool_result, image_url, other_part, bare, Content, absent, plain_text,
  parts, Role, system, developer, tool, assistant, user, unknown, ToolCall, ChatMessage, by_user,
  by_assistant, Turn, as_text,
}
use unify_llm.Convert.ToolCalls.{
  role_tools, chat_tools, result_block-role_tools, assistant-role_tools,
}
use unify_llm.Convert.ToAnthropic.{
  State, initial, turn, flush_tool_results, flushed, call_block, text_block, legacy_block, or_empty,
  assistant_blocks, user_blocks, user_content, result_block, take_role, take_message, take_messages,
  joined, add_merged, merge, start_with_user, convert_messages,
}

-- A call of a tool or an answer
abbrev pub is_tool_part : Part → Bool
is_tool_part (tool_use id name input) = true
is_tool_part (tool_result id content) = true
is_tool_part _ = false

abbrev pub tool_parts : List Part → List Part
tool_parts ps = keep is_tool_part ps

abbrev pub content_tools : Content → List Part
content_tools (parts ps) = tool_parts ps
content_tools _ = []

-- The calls and answers in a list of turns, in their order
abbrev pub turn_tools : List Turn → List Part
turn_tools [] = []
turn_tools (t ∷ ts) = content_tools t.content ++ turn_tools ts

turn_tools-append : (ts us : List Turn) → turn_tools (ts ++ us) ≡ turn_tools ts ++ turn_tools us
turn_tools-append [] us = refl
turn_tools-append (t ∷ ts) us =
    ap (λ l. content_tools t.content ++ l) (turn_tools-append ts us)
    ∙ sym (append_assoc (content_tools t.content) (turn_tools ts) (turn_tools us))

tool_parts-text_block : (t : String) → tool_parts (text_block t) ≡ []
tool_parts-text_block String.[] = refl
tool_parts-text_block (String.◌∷◌ c t) = refl

tool_parts-calls :
    (c : Codec) (tcs : List ToolCall) → tool_parts (map (call_block c) tcs) ≡ map (call_block c) tcs
tool_parts-calls c [] = refl
tool_parts-calls c (tc ∷ tcs) = ap (λ l. call_block c tc ∷ l) (tool_parts-calls c tcs)

tool_parts-legacy_block :
    (c : Codec) (m : ChatMessage) → tool_parts (legacy_block c m) ≡ legacy_block c m
tool_parts-legacy_block c m = ground arith

tool_parts-or_empty : (ps : List Part) → tool_parts (or_empty ps) ≡ tool_parts ps
tool_parts-or_empty [] = refl
tool_parts-or_empty (p ∷ ps) = refl

tool_parts-user_blocks : (ps : List Part) → tool_parts (user_blocks ps) ≡ []
tool_parts-user_blocks [] = refl
tool_parts-user_blocks (image_url ∷ ps) = tool_parts-user_blocks ps
tool_parts-user_blocks (text_part t ∷ ps) = tool_parts-user_blocks ps
tool_parts-user_blocks (tool_use i n v ∷ ps) = tool_parts-user_blocks ps
tool_parts-user_blocks (tool_result i k ∷ ps) = tool_parts-user_blocks ps
tool_parts-user_blocks (other_part t ∷ ps) = tool_parts-user_blocks ps
tool_parts-user_blocks (bare t ∷ ps) = tool_parts-user_blocks ps

content_tools-user : (k : Content) → content_tools (user_content k) ≡ []
content_tools-user absent = refl
content_tools-user (plain_text t) = refl
content_tools-user (parts ps) = tool_parts-or_empty (user_blocks ps) ∙ tool_parts-user_blocks ps

tool_parts-assistant_blocks :
    (c : Codec) (m : ChatMessage)
    → tool_parts (assistant_blocks c m) ≡ map (call_block c) m.tool_calls ++ legacy_block c m
unfolding assistant_blocks
tool_parts-assistant_blocks c m =
    let calls = map (call_block c) m.tool_calls in
    tool_parts-or_empty (text_block (as_text m.content) ++ (calls ++ legacy_block c m))
    ∙ rw
        (
          keep-append is_tool_part (text_block (as_text m.content)) (calls ++ legacy_block c m),
          keep-append is_tool_part calls (legacy_block c m),
          tool_parts-text_block (as_text m.content),
          tool_parts-calls c m.tool_calls,
          tool_parts-legacy_block c m,
        )
        refl

-- What the converter has so far: in its turns, and waiting
abbrev tools_so_far : State → List Part
tools_so_far s = turn_tools s.messages ++ tool_parts s.pending_tool_results

tools_so_far-flushed :
    (ps : List Part) (s : State)
    → s.pending_tool_results ≡ ps
    → turn_tools (flushed ps s).messages ≡ tools_so_far s
tools_so_far-flushed [] s e = rw (e) (sym (append-nil (turn_tools s.messages)))
tools_so_far-flushed (p ∷ ps) s e = rw (e) (
    turn_tools-append s.messages (turn by_user (parts (p ∷ ps)) ∷ [])
    ∙ ap (λ l. turn_tools s.messages ++ l) (append-nil (tool_parts (p ∷ ps))))

flushed-pending :
    (ps : List Part) (s : State)
    → s.pending_tool_results ≡ ps
    → (flushed ps s).pending_tool_results ≡ []
flushed-pending [] s e = e
flushed-pending (p ∷ ps) s e = refl

-- A turn that comes after the waiting answers
after_flush :
    (t : Turn) (s : State)
    → turn_tools ((flush_tool_results s).messages ++ t ∷ [])
        ++ tool_parts (flush_tool_results s).pending_tool_results
      ≡ tools_so_far s ++ content_tools t.content
unfolding flush_tool_results
after_flush t s =
    rw
      (
        flushed-pending s.pending_tool_results s refl,
        append-nil (turn_tools ((flush_tool_results s).messages ++ t ∷ [])),
        turn_tools-append (flush_tool_results s).messages (t ∷ []),
        append-nil (content_tools t.content),
        tools_so_far-flushed s.pending_tool_results s refl,
      )
      refl

after_system :
    (s : State)
    → turn_tools (flush_tool_results s).messages
        ++ tool_parts (flush_tool_results s).pending_tool_results
      ≡ tools_so_far s ++ []
unfolding flush_tool_results
after_system s =
    rw
      (
        flushed-pending s.pending_tool_results s refl,
        append-nil (turn_tools (flush_tool_results s).messages),
        append-nil (tools_so_far s),
        tools_so_far-flushed s.pending_tool_results s refl,
      )
      refl

take_role-tools :
    (c : Codec) (m : ChatMessage) (r : Role) (s : State)
    → tools_so_far (take_role c m r s) ≡ tools_so_far s ++ role_tools c m r
unfolding take_role
take_role-tools c m system s = after_system s
take_role-tools c m developer s = after_system s
take_role-tools c m tool s =
    ap (λ l. turn_tools s.messages ++ l)
      (keep-append is_tool_part s.pending_tool_results (result_block m ∷ []))
    ∙ sym (
        append_assoc (turn_tools s.messages) (tool_parts s.pending_tool_results)
          (result_block m ∷ []))
    ∙ ap (λ l. tools_so_far s ++ l) (result_block-role_tools c m)
take_role-tools c m assistant s =
    after_flush (turn by_assistant (parts (assistant_blocks c m))) s
    ∙ ap (λ l. tools_so_far s ++ l) (tool_parts-assistant_blocks c m ∙ assistant-role_tools c m)
take_role-tools c m user s =
    after_flush (turn by_user (user_content m.content)) s
    ∙ ap (λ l. tools_so_far s ++ l) (content_tools-user m.content)
take_role-tools c m unknown s =
    after_flush (turn by_user (user_content m.content)) s
    ∙ ap (λ l. tools_so_far s ++ l) (content_tools-user m.content)

take_messages-tools :
    (c : Codec) (ms : List ChatMessage) (s : State)
    → tools_so_far (take_messages c ms s) ≡ tools_so_far s ++ chat_tools c ms
unfolding take_messages take_message
take_messages-tools c [] s = sym (append-nil (tools_so_far s))
take_messages-tools c (m ∷ ms) s =
    take_messages-tools c ms (take_message c m s)
    ∙ ap (λ l. l ++ chat_tools c ms) (take_role-tools c m m.role s)
    ∙ append_assoc (tools_so_far s) (role_tools c m m.role) (chat_tools c ms)

-- Turns that are merged have no tools.
joined-tools :
    (a t b : Turn)
    → joined a t ≡ some b
    → content_tools b.content ++ [] ≡ content_tools a.content ++ (content_tools t.content ++ [])
joined-tools a t b e = ground (arith, e)

add_merged-tools :
    (ts : List Turn) (t : Turn) → turn_tools (add_merged ts t) ≡ turn_tools (ts ++ t ∷ [])
unfolding add_merged
add_merged-tools [] t = refl
add_merged-tools (a ∷ []) t = elim (Option-cases (joined a t)) [
  | inl e ↦ rw (e, add_merged) refl
  | inr (b, e) ↦ rw (e, add_merged) (joined-tools a t b e)
]
add_merged-tools (a ∷ b ∷ ts) t =
    ap (λ l. content_tools a.content ++ l) (add_merged-tools (b ∷ ts) t)

merge-tools : (merged ts : List Turn) → turn_tools (merge merged ts) ≡ turn_tools (merged ++ ts)
unfolding merge
merge-tools merged [] = ap turn_tools (sym (append-nil merged))
merge-tools merged (t ∷ ts) =
    merge-tools (add_merged merged t) ts
    ∙ turn_tools-append (add_merged merged t) ts
    ∙ ap (λ l. l ++ turn_tools ts) (add_merged-tools merged t)
    ∙ sym (turn_tools-append (merged ++ t ∷ []) ts)
    ∙ ap turn_tools (append_assoc merged (t ∷ []) ts)

start_with_user-tools : (ts : List Turn) → turn_tools (start_with_user ts) ≡ turn_tools ts
unfolding start_with_user
start_with_user-tools [] = refl
start_with_user-tools (t ∷ ts) = ground arith

-- The calls and the answers of tools that are sent on are those of the chat, in the same order. A call
-- keeps its id, its name and its arguments, a text of them being loaded; the legacy call is made under
-- the message's `tool_call_id` or `call_legacy`; an answer has the message's text and its `tool_call_id`,
-- or where that is empty its `id`.
pub convert_messages-tools :
    (c : Codec) (ms : List ChatMessage) → turn_tools (convert_messages c ms) ≡ chat_tools c ms
unfolding convert_messages flush_tool_results
convert_messages-tools c ms =
    let s = take_messages c ms initial in
    start_with_user-tools (merge [] (flush_tool_results s).messages)
    ∙ merge-tools [] (flush_tool_results s).messages
    ∙ tools_so_far-flushed s.pending_tool_results s refl
    ∙ take_messages-tools c ms initial
