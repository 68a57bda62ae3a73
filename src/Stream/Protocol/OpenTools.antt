-- ===== src/Stream/Protocol/OpenTools.antt =====
-- The slots of `openai_sse_to_anthropic_sse` of unify_llm/convert.py: each has its block, and `open_tools`
-- closes them all.
use unify_llm.Prelude.{
  ℕ, ◌≡◌, refl, ap, sym, ◌∙◌, true, none, some, List, [], ◌∷◌, ◌++◌, map, arith, ◌==◌,
  if◌then◌else◌, is_some, All, Option-cases, inl, inr,
}
use unify_llm.Stream.{Event, content_block_stop}
use unify_llm.Stream.ToAnthropic.{Slots, index_of, close_tools}

-- Every slot has its block.
abbrev pub Known : List ℕ → Slots → Type 0
Known slots l = All (λ k. is_some (index_of k l) ≡ true) slots

index_of-append_one :
    (k slot n : ℕ) (l : Slots)
    → index_of k (l ++ (slot, n) ∷ [])
      ≡ elim (index_of k l) [ none ↦ if slot == k then some n else none | some i ↦ some i ]
unfolding index_of
index_of-append_one k slot n [] = refl
index_of-append_one k slot n ((j, i) ∷ l) = ground (arith, index_of-append_one k slot n l)

pub Known-append_one :
    (slot n : ℕ) (slots : List ℕ) (l : Slots)
    → Known slots l
    → Known (slots ++ slot ∷ []) (l ++ (slot, n) ∷ [])
Known-append_one slot n [] l h = (ground (arith, index_of-append_one slot slot n l), tt)
Known-append_one slot n (k ∷ slots) l h =
    (ground (arith, h.0, index_of-append_one k slot n l), Known-append_one slot n slots l h.1)

close_tools-found :
    (k i : ℕ) (slots : List ℕ) (l : Slots)
    → index_of k l ≡ some i
    → close_tools (k ∷ slots) l ≡ content_block_stop i ∷ close_tools slots l
unfolding close_tools
close_tools-found k i slots l h = rw (h, close_tools) refl

close_tools-nil :
    (n : ℕ) (l l' : Slots)
    → content_block_stop n ∷ close_tools [] l' ≡ close_tools [] l ++ content_block_stop n ∷ []
unfolding close_tools
close_tools-nil n l l' = refl

pub close_tools-append_one :
    (slot n : ℕ) (slots : List ℕ) (l : Slots)
    → index_of slot l ≡ none
    → Known slots l
    → close_tools (slots ++ slot ∷ []) (l ++ (slot, n) ∷ [])
      ≡ close_tools slots l ++ content_block_stop n ∷ []
close_tools-append_one slot n [] l new h =
    close_tools-found slot n [] (l ++ (slot, n) ∷ [])
      (ground (arith, new, index_of-append_one slot slot n l))
    ∙ close_tools-nil n l (l ++ (slot, n) ∷ [])
close_tools-append_one slot n (k ∷ slots) l new h = elim (Option-cases (index_of k l)) [
  | inl gone ↦ cc (rw gone at h.0)
  | inr (i, there) ↦
      close_tools-found k i (slots ++ slot ∷ []) (l ++ (slot, n) ∷ [])
        (ground (arith, there, index_of-append_one k slot n l))
      ∙ ap (λ t. content_block_stop i ∷ t) (close_tools-append_one slot n slots l new h.1)
      ∙ ap (λ t. t ++ content_block_stop n ∷ []) (sym (close_tools-found k i slots l there))
]

abbrev pub stops : Slots → List Event
stops l = map (λ e. content_block_stop e.1) l
