-- ===== src/Upstream/Tests.antt =====
-- Runs of the retry loop of unify_llm/adapters/base.py at concrete answers.
use unify_llm.Prelude.{ℕ, zero, suc, ◌<◌, ◌≡◌, refl, false, [], ◌∷◌}
use unify_llm.Upstream.{
  Answer, response, broken, read_timeout, returned, attempts, one_attempt, should_retry,
  is_retryable_status, request_with_retries,
}
use unify_llm.Upstream.Retries.{Stops, request_with_retries-Stops, returned_is_success}

-- Busy, a timeout, and then an answer.
abbrev slow_start : ℕ → Answer
slow_start zero = response 503
slow_start (suc zero) = broken read_timeout
slow_start (suc (suc n)) = response 200

slow_start_waits : (request_with_retries 2 false slow_start) ≡ (returned 200, 1 ∷ 2 ∷ [])
unfolding request_with_retries attempts one_attempt should_retry is_retryable_status
slow_start_waits = refl

request_with_retries-Stops_example :
    (n : ℕ) × Stops n 2 0 false slow_start (request_with_retries 2 false slow_start)
request_with_retries-Stops_example = request_with_retries-Stops 2 false slow_start

returned_is_success_example : 200 < 400
unfolding request_with_retries attempts one_attempt should_retry is_retryable_status
returned_is_success_example = returned_is_success 2 slow_start 200 refl
