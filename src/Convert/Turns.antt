-- ===== src/Convert/Turns.antt =====
-- The turns that `openai_chat_to_anthropic_messages` of unify_llm/convert.py sends on.
use unify_llm.Prelude.{◌≡◌, ◌≢◌, ◌⊎◌, Bool, true, false, Option, none, some, List, [], ◌∷◌}
use unify_llm.Convert.{Content, absent, plain_text, parts, Speaker, by_assistant, Turn}
use unify_llm.Convert.ToAnthropic.{joined, has_result}

-- An assistant's turn has no answers of tools.
abbrev Clean : Turn → Type 0
Clean t = t.speaker ≡ by_assistant → has_result t.content ≡ false

abbrev pub first_speaker : List Turn → Option Speaker
first_speaker [] = none
first_speaker (t ∷ ts) = some t.speaker

-- The converter's own test joins no two turns that follow each other.
abbrev Unjoined : List Turn → Type 0
Unjoined [] = Unit
Unjoined (a ∷ []) = Unit
Unjoined (a ∷ b ∷ ts) = (joined a b ≡ none) × Unjoined (b ∷ ts)

abbrev is_text : Content → Bool
is_text (plain_text t) = true
is_text (parts ps) = false
is_text absent = false

-- Two turns that are not two texts of one speaker
abbrev Apart : Turn → Turn → Type 0
Apart a b = (a.speaker ≢ b.speaker) ⊎ (is_text a.content ≡ false) ⊎ (is_text b.content ≡ false)

-- Each two turns that follow each other are apart.
abbrev pub Separate : List Turn → Type 0
Separate [] = Unit
Separate (a ∷ []) = Unit
Separate (a ∷ b ∷ ts) = Apart a b × Separate (b ∷ ts)
