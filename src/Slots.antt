-- ===== src/Slots.antt =====
-- `rate_limit_middleware` of unify_llm/app.py: how a model request takes a concurrency slot, waits
-- for one, and gives it back. Each event is a stretch of the event loop between two awaits, so a
-- history is a list of events; a request is named by its place in the order of arrival.
pub mod Conservation
pub mod Caps
mod Tests
use text.Mathlib.Text.{starts_with}
use unify_llm.Prelude.{
  ℕ, zero, suc, ◌+◌, ◌*◌, max, String, Bool, true, false, ◌||◌, Option, none, some, List, [], ◌∷◌,
  ◌++◌, ltb, leb, ◌==◌, if◌then◌else◌,
}
use unify_llm.Prelude.Int.{ℤ}
use unify_llm.Prelude.Text.{str_eq}
use unify_llm.RateLimit.{
  RateLimiter, RateLimitDecision, second, enabled, check_rpm_only, try_reserve_concurrency,
  enter_queue, leave_queue, release, update_config,
}

-- `_is_model_api_path`
unfoldable pub is_model_api_path : String → Bool
is_model_api_path path =
    starts_with path "/v1/" || str_eq path "/messages" || str_eq path "/messages/count_tokens"

-- The reasons of a 429 answer; a limited rate also tells when to retry.
pub data Rejection : Type 0 where
  rate_limited : ℕ → Rejection
  max_concurrent queue_full queue_timeout : Rejection

-- Where the middleware's call for one request stands. `bypassed` calls hold no slot; `running` is
-- inside `call_next`, `streaming` has its body wrapped, and the others have ended.
pub data Phase : Type 0 where
  bypassed : Phase
  waiting : ℕ → Phase
  running streaming served abandoned : Phase
  rejected : Rejection → Phase

pub record Gateway : Type 0 where
  pub limiter : RateLimiter
  pub requests : List Phase

-- `max(1.0, float(queue_timeout_seconds or 30.0))`
abbrev pub wait_limit : RateLimiter → ℕ
wait_limit l = max second (if l.queue_timeout == 0 then 30 * second else l.queue_timeout)

abbrev pub get_elem? : List Phase → ℕ → Option Phase
get_elem? [] i = none
get_elem? (p ∷ ps) zero = some p
get_elem? (p ∷ ps) (suc i) = get_elem? ps i

abbrev pub set : List Phase → ℕ → Phase → List Phase
set [] i q = []
set (p ∷ ps) zero q = q ∷ ps
set (p ∷ ps) (suc i) q = p ∷ set ps i q

-- No slot was free: the queue, if there is one with room.
pub queue_up : ℕ → RateLimiter → Phase × RateLimiter
queue_up now l =
    if leb l.max_queue 0
    then (rejected max_concurrent, l)
    else let (entered, l') = enter_queue l in
      if entered then (waiting (now + wait_limit l), l') else (rejected queue_full, l')

pub reserve_or_queue : ℕ → RateLimiter → Phase × RateLimiter
unfolding queue_up
reserve_or_queue now l =
    let (reserved, l') = try_reserve_concurrency l in
    if reserved then (running, l') else queue_up now l'

abbrev after_rpm : ℕ → RateLimitDecision × RateLimiter → Phase × RateLimiter
after_rpm now (d, l) =
    if d.allowed then reserve_or_queue now l else (rejected (rate_limited d.retry_after), l)

-- The middleware up to its first await.
pub admit : String → String → ℕ → RateLimiter → Phase × RateLimiter
unfolding reserve_or_queue is_model_api_path
admit path client now l =
    if is_model_api_path path
    then (if enabled l then after_rpm now (check_rpm_only client now l) else (bypassed, l))
    else (bypassed, l)

-- One round of the waiting loop, `finally: leave_queue()` included.
pub poll_slot : ℕ → ℕ → RateLimiter → Phase × RateLimiter
poll_slot now deadline l =
    if ltb now deadline
    then (let (reserved, l') = try_reserve_concurrency l in
        if reserved then (running, leave_queue l') else (waiting deadline, l'))
    else (rejected queue_timeout, leave_queue l)

pub data Event : Type 0 where
  arrive : String → String → ℕ → Event
  poll : ℕ → ℕ → Event
  cancel raise close : ℕ → Event
  respond : ℕ → Bool → Event
  reload : Option ℤ → Option ℤ → Option ℤ → Option ℤ → Event

-- What an event does to the request that it names. A call that ends gives its slot back once:
-- afterwards its phase is another one.
pub advance : Event → Phase → RateLimiter → Phase × RateLimiter
advance (poll i now) (waiting deadline) l = poll_slot now deadline l
advance (cancel i) (waiting deadline) l = (abandoned, leave_queue l)
advance (cancel i) running l = (abandoned, release l)
advance (raise i) running l = (abandoned, release l)
advance (respond i true) running l = (streaming, l)
advance (respond i false) running l = (served, release l)
advance (respond i body) bypassed l = (served, l)
advance (raise i) bypassed l = (abandoned, l)
advance (cancel i) bypassed l = (abandoned, l)
advance (close i) streaming l = (served, release l)
advance e p l = (p, l)

-- A place that no request has is left alone.
pub at_phase : Event → ℕ → Gateway → Option Phase → Gateway
unfolding advance
at_phase e i g none = g
at_phase e i g (some p) =
    let (p', l') = advance e p g.limiter in record { limiter = l'; requests = set g.requests i p' }

pub advance_at : Event → ℕ → Gateway → Gateway
unfolding at_phase
advance_at e i g = at_phase e i g (get_elem? g.requests i)

pub step : Event → Gateway → Gateway
unfolding advance_at admit
step (arrive path client now) g =
    let (p, l) = admit path client now g.limiter in
    record { limiter = l; requests = g.requests ++ p ∷ [] }
step (reload rpm conc queue timeout) g = record g {
  limiter = update_config rpm conc queue timeout g.limiter;
}
step (poll i now) g = advance_at (poll i now) i g
step (cancel i) g = advance_at (cancel i) i g
step (raise i) g = advance_at (raise i) i g
step (respond i body) g = advance_at (respond i body) i g
step (close i) g = advance_at (close i) i g

pub run : List Event → Gateway → Gateway
unfolding step
run [] g = g
run (e ∷ l) g = run l (step e g)
