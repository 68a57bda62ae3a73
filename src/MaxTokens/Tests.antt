-- ===== src/MaxTokens/Tests.antt =====
-- The policy of unify_llm/convert.py on concrete bodies.
use unify_llm.Prelude.{true, some, none}
use unify_llm.Prelude.Int.{pos}
use unify_llm.MaxTokens.{Body, number, apply_max_tokens_policy}
use unify_llm.MaxTokens.Policy.{Outcome, apply_max_tokens_policy-Outcome}

abbrev small : Body
small = record { max_tokens = some (number (pos 4096)); max_completion_tokens = none }

apply_max_tokens_policy-Outcome_example :
    Outcome (some 64000) true small (some 4096) (apply_max_tokens_policy (some 64000) true small)
apply_max_tokens_policy-Outcome_example = apply_max_tokens_policy-Outcome (some 64000) true small
