-- ===== src/Sniffer.antt =====
-- `_usage_pair` and `StreamUsageSniffer._absorb` of unify_llm/monitor.py: the token counts that pass by
-- in a stream. `Feed` takes the text apart into JSON objects; of an object only its usage counts.
pub mod Peak
pub mod Feed
pub mod Chunks
mod Tests
use unify_llm.Prelude.{
  ℕ, max, Bool, true, false, ◌||◌, not, ◌&&◌, Option, none, some, List, [], ◌∷◌, ◌==◌, is_some,
  if◌then◌else◌,
}

-- The keys of a `usage` dict that are there, with what `int(… or 0)` makes of them.
pub record UsageDict : Type 0 where
  pub prompt_tokens : Option ℕ
  pub completion_tokens : Option ℕ
  pub input_tokens : Option ℕ
  pub output_tokens : Option ℕ

-- An object of the stream: of the Anthropic protocol, by its type, or of the OpenAI protocol, with the
-- usage of the object and of its choices.
pub data Chunk : Type 0 where
  message_start : UsageDict → Chunk
  message_delta : UsageDict → Chunk
  other_event : Chunk
  completion_chunk : Option UsageDict → List UsageDict → Chunk

pub record Usage : Type 0 where
  pub prompt : ℕ
  pub completion : ℕ

abbrev pub or_zero : Option ℕ → ℕ
or_zero none = 0
or_zero (some n) = n

-- `_usage_pair`
unfoldable pub usage_pair : UsageDict → ℕ × ℕ
usage_pair u =
    if is_some u.prompt_tokens || is_some u.completion_tokens
    then (or_zero u.prompt_tokens, or_zero u.completion_tokens)
    else if is_some u.input_tokens || is_some u.output_tokens
    then (or_zero u.input_tokens, or_zero u.output_tokens)
    else (0, 0)

abbrev pub raised_to : ℕ × ℕ → Usage → Usage
raised_to (pt, ct) s = record { prompt = max s.prompt pt; completion = max s.completion ct }

-- `if pt or ct`
unfoldable pub raise_if_any : ℕ × ℕ → Usage → Usage
raise_if_any (pt, ct) s = if pt == 0 && ct == 0 then s else raised_to (pt, ct) s

abbrev pub raise_completion : Option ℕ → Usage → Usage
raise_completion none s = s
raise_completion (some n) s = record s { completion = max s.completion n }

abbrev pub raise_prompt : Option ℕ → Usage → Usage
raise_prompt none s = s
raise_prompt (some n) s = record s { prompt = max s.prompt n }

unfoldable pub absorb_choices : List UsageDict → Usage → Usage
unfolding raise_if_any usage_pair
absorb_choices [] s = s
absorb_choices (u ∷ us) s = absorb_choices us (raise_if_any (usage_pair u) s)

abbrev pub absorb_usage : Option UsageDict → Usage → Usage
absorb_usage none s = s
absorb_usage (some u) s = raise_if_any (usage_pair u) s

-- `_absorb`
unfoldable pub absorb : Chunk → Usage → Usage
unfolding raise_if_any usage_pair absorb_choices
absorb (message_start u) s = raised_to (usage_pair u) s
absorb (message_delta u) s =
    raise_if_any (usage_pair u) (raise_prompt u.input_tokens (raise_completion u.output_tokens s))
absorb other_event s = s
absorb (completion_chunk u us) s = absorb_choices us (absorb_usage u s)

-- The objects of a stream, in their order.
unfoldable pub absorb_all : List Chunk → Usage → Usage
unfolding absorb
absorb_all [] s = s
absorb_all (k ∷ ks) s = absorb_all ks (absorb k s)
