-- ===== src/RateLimit.antt =====
-- unify_llm/rate_limit.py: the token bucket per client, the concurrency cap and the queue counter.
-- Time is in nanoseconds, the resolution of the clock. A token is `token` units, so that the refill
-- of `capacity / 60.0` tokens a second adds `requests_per_minute` units a nanosecond, exactly.
pub mod Bounds
pub mod Bucket
pub mod Budget
pub mod Calls
mod Tests
pub mod Counters
use unify_llm.Prelude.{
  ℕ, ◌+◌, ◌-◌, ◌*◌, ◌/◌, ◌^◌, min, max, String, Bool, true, false, ◌&&◌, ◌||◌, Option, none, some,
  List, [], ◌∷◌, map, ltb, leb, if◌then◌else◌, length, take, keep,
}
use unify_llm.Prelude.Int.{ℤ, pos_part}
use unify_llm.Prelude.Dict.{Dict, lookup, insert, erase}
pub use unify_llm.Prelude.Clock.{second}
use unify_llm.Prelude.Text.{is_empty}

-- One token of a bucket, in units.
abbrev pub token : ℕ
token = 60 * second

abbrev pub max_tracked_clients : ℕ
max_tracked_clients = 1024

abbrev pub bucket_idle : ℕ
bucket_idle = 120 * second

-- The two reasons of a refusal.
pub data Reason : Type 0 where
  by_rpm by_concurrency : Reason

pub record RateLimitDecision : Type 0 where
  pub allowed : Bool
  pub retry_after : ℕ
  pub reason : Option Reason
  pub remaining : Option ℕ
  pub active_count : ℕ

pub record RateLimiter : Type 0 where
  pub requests_per_minute : ℕ
  pub max_concurrent : ℕ
  pub max_queue : ℕ
  pub queue_timeout : ℕ
  -- client ↦ (units, last_updated)
  pub buckets : Dict (ℕ × ℕ)
  pub active : ℕ
  pub queued : ℕ

-- `_norm`, on an integer or None
unfoldable pub norm : Option ℤ → ℕ
norm none = 0
norm (some v) = pos_part v

-- `__init__`; the timeout in nanoseconds
unfoldable pub init : ℤ → ℤ → ℤ → ℤ → RateLimiter
unfolding norm
init rpm conc queue timeout = record {
  requests_per_minute = norm (some rpm);
  max_concurrent = norm (some conc);
  max_queue = norm (some queue);
  queue_timeout = pos_part timeout;
  buckets = [];
  active = 0;
  queued = 0;
}

unfoldable pub enabled : RateLimiter → Bool
enabled s = ltb 0 s.requests_per_minute || ltb 0 s.max_concurrent || ltb 0 s.max_queue

-- An argument that is None leaves its setting alone.
abbrev update_or : Option ℤ → ℕ → ℕ
update_or none old = old
update_or (some v) old = pos_part v

unfoldable pub update_config : Option ℤ → Option ℤ → Option ℤ → Option ℤ → RateLimiter → RateLimiter
unfolding norm
update_config rpm conc queue timeout s =
    let rate = norm rpm in
    record s {
      requests_per_minute = rate;
      max_concurrent = norm conc;
      max_queue = update_or queue s.max_queue;
      queue_timeout = update_or timeout s.queue_timeout;
      buckets = if leb rate 0 then [] else s.buckets;
    }

-- Python's `sorted` with the time of the last update as key: stable.
insert_by_time : String × (ℕ × ℕ) → Dict (ℕ × ℕ) → Dict (ℕ × ℕ)
insert_by_time e [] = e ∷ []
insert_by_time (k, (v, t)) ((j, (w, u)) ∷ l) =
    let later = insert_by_time (k, (v, t)) l in
    if leb t u then (k, (v, t)) ∷ (j, (w, u)) ∷ l else (j, (w, u)) ∷ later

sort_by_time : Dict (ℕ × ℕ) → Dict (ℕ × ℕ)
unfolding insert_by_time
sort_by_time [] = []
sort_by_time (e ∷ l) = insert_by_time e (sort_by_time l)

-- `for k, _ in entries: del self._buckets[k]`
erase_all : Dict (ℕ × ℕ) → Dict (ℕ × ℕ) → Dict (ℕ × ℕ)
unfolding erase
erase_all [] d = d
erase_all ((k, _) ∷ l) d = erase_all l (erase k d)

abbrev stale : ℕ → String × (ℕ × ℕ) → Bool
stale now (k, (v, t)) = ltb (t + bucket_idle) now

-- The second step of `_prune_locked`: the oldest extras go.
drop_oldest : Dict (ℕ × ℕ) → Dict (ℕ × ℕ)
unfolding sort_by_time erase_all
drop_oldest d =
    if ltb max_tracked_clients (length d)
    then erase_all (take (length d - max_tracked_clients) (sort_by_time d)) d
    else d

-- `_prune_locked`
pub prune : ℕ → Dict (ℕ × ℕ) → Dict (ℕ × ℕ)
unfolding drop_oldest
prune now d =
    if leb (length d) max_tracked_clients then d else drop_oldest (erase_all (keep (stale now) d) d)

abbrev pub capacity : RateLimiter → ℕ
capacity s = s.requests_per_minute * token

-- What a bucket holds at `now`; a client with no bucket has a full one.
pub level : RateLimiter → Option (ℕ × ℕ) → ℕ → ℕ
level s none now = capacity s
level s (some (units, updated)) now =
    min (capacity s) (units + (now - updated) * s.requests_per_minute)

-- `_refill_locked`
pub refill : String → ℕ → RateLimiter → ℕ × RateLimiter
unfolding level
refill client now s =
    let units = level s (lookup client s.buckets) now in
    (units, record s { buckets = prune now (insert client (units, now) s.buckets) })

-- `_remaining_locked`
pub remaining_at : RateLimiter → ℕ → String → Option ℕ
unfolding level
remaining_at s now client =
    if leb s.requests_per_minute 0
    then none
    else some (level s (lookup client s.buckets) now / token)

-- `max(1, ceil(need * 60.0 / requests_per_minute))` for a bucket with less than one token
pub retry_seconds : ℕ → ℕ → ℕ
retry_seconds units rpm = max 1 ((token - units + (rpm * second - 1)) / (rpm * second))

unfoldable pub client_or_unknown : String → String
client_or_unknown client = if is_empty client then "unknown" else client

-- The part that `check` and `check_rpm_only` share: none, or the refusal, with the tokens left.
pub data Admission : Type 0 where
  admitted : Option ℕ → Admission
  refused : ℕ → Admission

pub take_token : String → ℕ → RateLimiter → Admission × RateLimiter
unfolding retry_seconds
take_token client now s =
    if ltb 0 s.requests_per_minute
    then (let (units, s') = refill client now s in
        if ltb units token then (refused (retry_seconds units s.requests_per_minute), s') else (
          admitted (some ((units - token) / token)),
          record s' { buckets = insert client (units - token, now) s'.buckets },
        ))
    else (admitted none, s)

abbrev refusal : ℕ → ℕ → RateLimitDecision
refusal retry n = record {
  allowed = false;
  retry_after = retry;
  reason = some by_rpm;
  remaining = some 0;
  active_count = n;
}

abbrev admission : Option ℕ → ℕ → RateLimitDecision
admission left n = record {
  allowed = true;
  retry_after = 0;
  reason = none;
  remaining = left;
  active_count = n;
}

-- The end of `check`: an admitted request takes a slot.
pub finish_check : Admission × RateLimiter → RateLimitDecision × RateLimiter
finish_check (refused retry, s) = (refusal retry s.active, s)
finish_check (admitted left, s) =
    (admission left (s.active + 1), record s { active = s.active + 1 })

-- `check`
pub check : String → ℕ → RateLimiter → RateLimitDecision × RateLimiter
unfolding finish_check take_token remaining_at
check client now s =
    let name = client_or_unknown client in
    if ltb 0 s.max_concurrent && leb s.max_concurrent s.active
    then (
      record {
        allowed = false;
        retry_after = 1;
        reason = some by_concurrency;
        remaining = remaining_at s now name;
        active_count = s.active;
      },
      s,
    )
    else finish_check (take_token name now s)

pub finish_rpm : Admission × RateLimiter → RateLimitDecision × RateLimiter
finish_rpm (refused retry, s) = (refusal retry s.active, s)
finish_rpm (admitted left, s) = (admission left s.active, s)

-- `check_rpm_only`
pub check_rpm_only : String → ℕ → RateLimiter → RateLimitDecision × RateLimiter
unfolding finish_rpm take_token
check_rpm_only client now s = finish_rpm (take_token (client_or_unknown client) now s)

unfoldable pub try_reserve_concurrency : RateLimiter → Bool × RateLimiter
try_reserve_concurrency s =
    if leb s.max_concurrent 0 || ltb s.active s.max_concurrent
    then (true, record s { active = s.active + 1 })
    else (false, s)

unfoldable pub enter_queue : RateLimiter → Bool × RateLimiter
enter_queue s =
    if ltb 0 s.max_queue && leb s.max_queue s.queued
    then (false, s)
    else (true, record s { queued = s.queued + 1 })

unfoldable pub leave_queue : RateLimiter → RateLimiter
leave_queue s = record s { queued = if ltb 0 s.queued then s.queued - 1 else s.queued }

unfoldable pub release : RateLimiter → RateLimiter
release s = record s { active = if ltb 0 s.active then s.active - 1 else s.active }

-- The smallest of the buckets' remaining tokens, `min(... for c in self._buckets)`.
least : List (Option ℕ) → Option ℕ
least [] = none
least (none ∷ l) = some 0
least (some n ∷ []) = some n
least (some n ∷ r ∷ l) = elim (least (r ∷ l)) [ none ↦ some n | some m ↦ some (min n m) ]

pub record Status : Type 0 where
  pub is_enabled : Bool
  pub rpm : ℕ
  pub concurrent : ℕ
  pub queue : ℕ
  pub timeout : ℕ
  pub active_now : ℕ
  pub queued_now : ℕ
  pub left : Option ℕ
  pub tracked_clients : ℕ

-- `status`
pub status : ℕ → RateLimiter → Status
unfolding least enabled remaining_at
status now s = record {
  is_enabled = enabled s;
  rpm = s.requests_per_minute;
  concurrent = s.max_concurrent;
  queue = s.max_queue;
  timeout = s.queue_timeout;
  active_now = s.active;
  queued_now = s.queued;
  left =
      if ltb 0 s.requests_per_minute
      then elim s.buckets [
        | [] ↦ some s.requests_per_minute
        | e ∷ l ↦ least (map (λ b. remaining_at s now b.0) (e ∷ l))
      ]
      else none;
  tracked_clients = length s.buckets;
}
