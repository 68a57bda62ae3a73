-- ===== src/Upstream.antt =====
-- `_request_with_retries` of unify_llm/adapters/base.py: the retry loop around one upstream request.
-- What the HTTP client makes of each attempt is an argument, a function from the attempt's number.
pub mod Retries
mod Tests
use unify_llm.Prelude.{
  ℕ, zero, suc, ◌+◌, Bool, true, false, ◌||◌, ◌&&◌, not, Option, none, some, List, [], ◌∷◌, ltb,
  leb, ◌==◌, if◌then◌else◌,
}
use unify_llm.Config.{ProviderConfig, DefaultsConfig}

-- The classes of `httpx.HTTPError` that the loop tells apart.
pub data Failure : Type 0 where
  connect_error connect_timeout read_timeout write_timeout pool_timeout : Failure
  remote_protocol_error other_error : Failure

pub data Answer : Type 0 where
  response : ℕ → Answer
  broken : Failure → Answer

-- The response that is returned, or the status of the `UpstreamError` that is raised.
pub data Outcome : Type 0 where
  returned : ℕ → Outcome
  raised : ℕ → Outcome

-- `max_retries_for`
unfoldable pub max_retries_for : ProviderConfig → DefaultsConfig → ℕ
max_retries_for p d = elim p.max_retries [ none ↦ d.max_retries | some n ↦ n ]

-- `RETRYABLE_STATUS`
unfoldable pub is_retryable_status : ℕ → Bool
is_retryable_status s = s == 408 || s == 429 || s == 500 || s == 502 || s == 503 || s == 504

-- `should_retry`
unfoldable pub should_retry : Answer → Bool
unfolding is_retryable_status
should_retry (response s) = is_retryable_status s
should_retry (broken other_error) = false
should_retry (broken _) = true

-- What one attempt makes of its answer, with or without attempts left; none to go on.
unfoldable pub one_attempt : Bool → Bool → Answer → Option Outcome
unfolding should_retry is_retryable_status
one_attempt more stream (response s) =
    if leb 400 s && not stream
    then (if more && should_retry (response s) then none else some (raised s))
    else if leb 400 s && stream
    then (if is_retryable_status s && more then none else some (returned s))
    else some (returned s)
one_attempt more stream (broken e) =
    if more && should_retry (broken e) then none else some (raised 502)

-- `attempt < retries`, from the number of attempts that follow
abbrev pub any_left : ℕ → Bool
any_left zero = false
any_left (suc n) = true

-- The loop with so many attempts left, and the waits in multiples of the backoff.
unfoldable pub attempts : ℕ → ℕ → Bool → (ℕ → Answer) → Outcome × List ℕ
unfolding one_attempt
attempts zero k stream answer = (raised 502, [])
attempts (suc left) k stream answer =
    let (last, waits) = attempts left (k + 1) stream answer in
    elim (one_attempt (any_left left) stream (answer k)) [
      | some o ↦ (o, [])
      | none ↦ (last, (k + 1) ∷ waits)
    ]

-- `_request_with_retries`
unfoldable pub request_with_retries : ℕ → Bool → (ℕ → Answer) → Outcome × List ℕ
unfolding attempts
request_with_retries retries stream answer = attempts (suc retries) 0 stream answer
