-- ===== src/Sniffer/Feed.antt =====
-- `StreamUsageSniffer.feed` of unify_llm/monitor.py: the buffer of a stream's text and its lines. Each
-- chunk of bytes has been decoded; `json.loads`, with the keys that count, is a parameter.
use text.Mathlib.Text.{starts_with}
use Prim.Native.Char.{Char, code}
use unify_llm.Prelude.{
  ℕ, zero, suc, ◌-◌, String, Bool, true, false, ◌||◌, ◌&&◌, Option, none, some, List, [], ◌∷◌, ltb,
  ◌==◌, if◌then◌else◌,
}
use unify_llm.Prelude.Text.{is_empty, count_chars, ◌+str◌, strip, str_eq}
use unify_llm.Sniffer.{Chunk, Usage, absorb}

pub record Sniffer : Type 0 where
  pub usage : Usage
  pub buf : String

-- A character before the lines and the rest of a text; whether it ends a line
abbrev pub before_lines : Bool → Char → List String × String → List String × String
before_lines true c (ls, rest) = ("" ∷ ls, rest)
before_lines false c ([], rest) = ([], String.◌∷◌ c rest)
before_lines false c (l ∷ ls, rest) = (String.◌∷◌ c l ∷ ls, rest)

-- The complete lines of a text, without their ends, and the rest after the last of them
unfoldable pub split_lines : String → List String × String
split_lines String.[] = ([], "")
split_lines (String.◌∷◌ c s) = before_lines (code c == 10) c (split_lines s)

-- `line.rstrip("\r")`
unfoldable pub strip_returns : String → String
strip_returns String.[] = ""
strip_returns (String.◌∷◌ c s) =
    let rest = strip_returns s in if is_empty rest && (code c == 13) then "" else String.◌∷◌ c rest

abbrev pub drop_chars : ℕ → String → String
drop_chars zero s = s
drop_chars (suc n) String.[] = ""
drop_chars (suc n) (String.◌∷◌ c s) = drop_chars n s

-- `if len(self._buf) > 512_000: self._buf = self._buf[-64_000:]`
unfoldable pub capped : String → String
capped s = if ltb 512000 (count_chars s) then drop_chars (count_chars s - 64000) s else s

module _ (loads : String → Option Chunk) where
  abbrev absorbed : Option Chunk → Usage → Usage
  absorbed none u = u
  absorbed (some k) u = absorb k u

  -- `_handle_data_line`
  unfoldable pub handle_data_line : String → Usage → Usage
  unfolding absorb
  handle_data_line payload u =
      if is_empty payload || str_eq payload "[DONE]" then u else absorbed (loads payload) u

  -- One line of the loop in `feed`
  unfoldable pub handle_line : String → Usage → Usage
  unfolding handle_data_line strip_returns strip
  handle_line l u =
      let line = strip_returns l in
      if starts_with line "data:" then handle_data_line (strip (drop_chars 5 line)) u else u

  unfoldable pub handle_lines : List String → Usage → Usage
  unfolding handle_line
  handle_lines [] u = u
  handle_lines (l ∷ ls) u = handle_lines ls (handle_line l u)

  -- `feed`
  unfoldable pub feed : String → Sniffer → Sniffer
  unfolding handle_lines split_lines capped
  feed text s =
      let (ls, rest) = split_lines (capped (s.buf +str text)) in
      record { usage = handle_lines ls s.usage; buf = rest }

  unfoldable pub feed_all : List String → Sniffer → Sniffer
  unfolding feed
  feed_all [] s = s
  feed_all (t ∷ ts) s = feed_all ts (feed t s)
