-- ===== src/RateLimit/Calls.antt =====
-- Histories of calls on one limiter of unify_llm/rate_limit.py, in the order in which its lock lets them in.
use unify_llm.Prelude.{ℕ, ◌+◌, ◌-◌, ◌≤◌, String, ◌≡◌, Option, List, [], ◌∷◌, arith, length}
use unify_llm.Prelude.Int.{ℤ}
use unify_llm.Prelude.Dict.{insert-IsDict, length-insert, IsDict}
use unify_llm.RateLimit.{
  RateLimiter, init, token, refill, take_token, finish_check, finish_rpm, check, check_rpm_only,
  client_or_unknown, try_reserve_concurrency, enter_queue, leave_queue, release, update_config,
  max_tracked_clients,
}
use unify_llm.RateLimit.Bounds.{IsValid, refill-IsValid, refill-tracked}

pub data Call : Type 0 where
  check_at rpm_at : String → ℕ → Call
  reserve enter leave finish : Call
  update : Option ℤ → Option ℤ → Option ℤ → Option ℤ → Call

pub call : Call → RateLimiter → RateLimiter
call (check_at client now) s = (check client now s).1
call (rpm_at client now) s = (check_rpm_only client now s).1
call reserve s = (try_reserve_concurrency s).1
call enter s = (enter_queue s).1
call leave s = leave_queue s
call finish s = release s
call (update rpm conc queue timeout) s = update_config rpm conc queue timeout s

pub calls : List Call → RateLimiter → RateLimiter
calls [] s = s
calls (c ∷ l) s = calls l (call c s)

take_token-IsValid :
    (client : String) (now : ℕ) (s : RateLimiter) → IsValid s → IsValid (take_token client now s).1
unfolding take_token
take_token-IsValid client now s v =
    let s' : RateLimiter = (refill client now s).1 in
    let units : ℕ = (refill client now s).0 in
    let w : IsValid s' = refill-IsValid client now s v in
    ground (
      arith,
      w,
      refill-tracked client now s v,
      insert-IsDict client (units - token, now) s'.buckets w.is_dict,
      length-insert client (units - token, now) s'.buckets,
    )

same_table : (s t : RateLimiter) → t.buckets ≡ s.buckets → IsValid s → IsValid t
same_table s t e v = record { is_dict = rw e v.is_dict; tracked = rw e v.tracked }

call-IsValid : (c : Call) (s : RateLimiter) → IsValid s → IsValid (call c s)
unfolding call check check_rpm_only finish_check finish_rpm try_reserve_concurrency enter_queue
    leave_queue release update_config
call-IsValid (check_at client now) s v =
    ground (arith, take_token-IsValid (client_or_unknown client) now s v)
call-IsValid (rpm_at client now) s v =
    ground (arith, take_token-IsValid (client_or_unknown client) now s v)
call-IsValid reserve s v = same_table s (call reserve s) (ground arith) v
call-IsValid enter s v = same_table s (call enter s) (ground arith) v
call-IsValid leave s v = ground arith
call-IsValid finish s v = ground arith
call-IsValid (update rpm conc queue timeout) s v = ground arith

calls-IsValid : (l : List Call) (s : RateLimiter) → IsValid s → IsValid (calls l s)
unfolding calls
calls-IsValid [] s v = v
calls-IsValid (c ∷ l) s v = calls-IsValid l (call c s) (call-IsValid c s v)

init-IsValid : (rpm conc queue timeout : ℤ) → IsValid (init rpm conc queue timeout)
unfolding init
init-IsValid rpm conc queue timeout = ground arith

-- Whatever the configuration and whatever calls are made, in any order and by however many clients,
-- the limiter's table has each client once and never holds more than one entry over its cap of 1024.
pub calls_bounded :
    (rpm conc queue timeout : ℤ) (l : List Call)
    → let s = calls l (init rpm conc queue timeout) in
      IsDict s.buckets × (length s.buckets ≤ max_tracked_clients + 1)
calls_bounded rpm conc queue timeout l =
    let v = calls-IsValid l (init rpm conc queue timeout) (init-IsValid rpm conc queue timeout) in
    (v.is_dict, v.tracked)
