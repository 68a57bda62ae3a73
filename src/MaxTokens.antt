-- ===== src/MaxTokens.antt =====
-- The output limit of unify_llm/convert.py: what the client asks for against the model's limit.
pub mod Policy
mod Tests
use unify_llm.Prelude.{ℕ, max, Bool, true, false, ◌&&◌, Option, none, some, ltb, if◌then◌else◌}
use unify_llm.Prelude.Int.{ℤ, pos, pos_part}

-- A value of the JSON body that is not null: what `int(…)` makes of it, or that it raises TypeError or
-- ValueError. An infinite number, for which `int(…)` raises OverflowError and the policy with it, is no
-- value here.
pub data Value : Type 0 where
  number : ℤ → Value
  unreadable : Value

-- The two keys of the body that the policy reads; a key with null counts as one that is missing.
pub record Body : Type 0 where
  pub max_tokens : Option Value
  pub max_completion_tokens : Option Value

-- `DEFAULT_MAX_TOKENS`
abbrev pub default_max_tokens : ℕ
default_max_tokens = 128000

-- The value that counts: `max_tokens`, or else `max_completion_tokens`
abbrev pub client_raw : Body → Option Value
client_raw b = elim b.max_tokens [ none ↦ b.max_completion_tokens | some v ↦ some v ]

-- `max(int(client_raw), 1)`; none for a value that cannot be read
abbrev pub at_least_one : Option Value → Option ℕ
at_least_one none = none
at_least_one (some unreadable) = none
at_least_one (some (number n)) = some (max (pos_part n) 1)

abbrev pub client_n : Body → Option ℕ
client_n b = at_least_one (client_raw b)

-- `_resolve_max_tokens`; a model default of 0 counts as none
unfoldable pub resolve_max_tokens : Body → Option ℕ → ℕ
resolve_max_tokens b model_default = elim (client_n b) [
  | some n ↦ n
  | none ↦ (elim model_default [
    | none ↦ default_max_tokens
    | some n ↦ if ltb 0 n then n else default_max_tokens
  ])
]

abbrev pub with_max : ℕ → Body → Body
with_max n b = record b { max_tokens = some (number (pos n)) }

-- `apply_max_tokens_policy`
unfoldable pub apply_limit : ℕ → Bool → Body → Option ℕ → Body × Option ℕ
apply_limit limit raise b none = if ltb 0 limit then (with_max limit b, some limit) else (b, none)
apply_limit limit raise b (some n) =
    if raise && ltb 0 limit && ltb n limit then (with_max limit b, some limit) else (b, some n)

unfoldable pub apply_max_tokens_policy : Option ℕ → Bool → Body → Body × Option ℕ
unfolding apply_limit
apply_max_tokens_policy none raise b = (b, client_n b)
apply_max_tokens_policy (some limit) raise b = apply_limit limit raise b (client_n b)
