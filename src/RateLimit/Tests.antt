-- ===== src/RateLimit/Tests.antt =====
-- Runs of the limiter of unify_llm/rate_limit.py at concrete calls.
use unify_llm.Prelude.{◌+◌, ◌-◌, ◌*◌, ◌≤◌, ◌≡◌, refl, true, List, [], ◌∷◌, arith, length}
use unify_llm.Prelude.Int.{pos}
use unify_llm.Prelude.Dict.{IsDict, lookup, insert}
use unify_llm.RateLimit.{
  RateLimiter, init, second, token, capacity, check_rpm_only, finish_rpm, take_token, refill, level,
  prune, retry_seconds, client_or_unknown, max_tracked_clients,
}
use unify_llm.RateLimit.Bucket.{retry_after_admits}
use unify_llm.RateLimit.Budget.{Trace, admissions, admissions_bound}
use unify_llm.RateLimit.Calls.{Call, calls, calls_bounded, check_at, rpm_at, reserve, finish}

-- One request a minute, two slots, a queue of two.
abbrev limiter : RateLimiter
limiter = record {
  requests_per_minute = 1;
  max_concurrent = 2;
  max_queue = 2;
  queue_timeout = 30 * second;
  buckets = [];
  active = 0;
  queued = 0;
}

abbrev drained : RateLimiter
drained = record limiter { buckets = ("ann", (0, 5 * second)) ∷ [] }

-- The refused client is told to wait for what is missing, rounded up.
drained_refusal : (check_rpm_only "ann" (10 * second) drained).0.retry_after ≡ 55
unfolding check_rpm_only finish_rpm take_token refill level prune retry_seconds lookup insert
    client_or_unknown
drained_refusal = refl

retry_after_admits_example :
    (check_rpm_only "ann" (65 * second) (check_rpm_only "ann" (10 * second) drained).1).0.allowed
    ≡ true
unfolding check_rpm_only finish_rpm take_token refill level prune retry_seconds lookup insert
    client_or_unknown
retry_after_admits_example =
    retry_after_admits "ann" (10 * second) (65 * second) drained refl (omega arith)

abbrev requests : Trace
requests = ("ann", 0) ∷ ("bob", second) ∷ ("ann", 2 * second) ∷ ("ann", 61 * second) ∷ []

admissions_bound_example :
    token * admissions "ann" requests limiter ≤ capacity limiter + (61 * second - 0) * 1
admissions_bound_example =
    admissions_bound "ann" 0 requests limiter (omega arith) (omega arith)
      (omega arith, (omega arith, (omega arith, (omega arith, tt))))

abbrev some_calls : List Call
some_calls = check_at "ann" 0 ∷ rpm_at "" 1 ∷ reserve ∷ finish ∷ check_at "ann" second ∷ []

calls_bounded_example :
    let s = calls some_calls (init (pos 2) (pos 0) (pos 0) (pos 30)) in
    IsDict s.buckets × (length s.buckets ≤ max_tracked_clients + 1)
calls_bounded_example = calls_bounded (pos 2) (pos 0) (pos 0) (pos 30) some_calls
