-- ===== src/RateLimit/Counters.antt =====
-- A rate check of unify_llm/rate_limit.py leaves the slots, the queue and the configuration alone.
use unify_llm.Prelude.{ℕ, String, ◌≡◌, arith}
use unify_llm.RateLimit.{RateLimiter, check_rpm_only, finish_rpm, take_token, refill}

module _ (client : String) (now : ℕ) (l : RateLimiter) where
  abbrev pub checked : RateLimiter
  checked = (check_rpm_only client now l).1

  pub check_rpm_only_counts :
      (checked.active ≡ l.active)
      × (checked.queued ≡ l.queued)
      × (checked.max_concurrent ≡ l.max_concurrent)
      × (checked.max_queue ≡ l.max_queue)
  unfolding check_rpm_only finish_rpm take_token refill
  check_rpm_only_counts = ground arith
