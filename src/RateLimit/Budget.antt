-- ===== src/RateLimit/Budget.antt =====
-- The token bucket of unify_llm/rate_limit.py over a history of requests by many clients.
use unify_llm.Prelude.{
  ℕ, ◌+◌, ◌-◌, ◌*◌, ◌≤◌, ◌<◌, min, String, ◌≡◌, Bool, true, false, ◌&&◌, some, List, [], ◌∷◌, arith,
  if◌then◌else◌, length, ltb,
}
use unify_llm.Prelude.Dict.{lookup, insert, lookup-insert, length-insert, length-insert_known}
use unify_llm.Prelude.Text.{str_eq, eq_iff, eq_refl}
use unify_llm.RateLimit.{
  RateLimiter, token, capacity, max_tracked_clients, level, refill, take_token, check_rpm_only,
  client_or_unknown,
}
use unify_llm.RateLimit.Bucket.{
  bucket, level_later, level-le-capacity, prune_small, charged, admits, take_token_answer,
  check_rpm_only-answer, level_rate,
}

-- The requests, each with its client and its time.
abbrev pub Trace : Type 0
Trace = List (String × ℕ)

-- How many requests of one client are let through.
pub admissions : String → Trace → RateLimiter → ℕ
admissions c [] s = 0
admissions c ((k, now) ∷ l) s =
    let (d, s') = check_rpm_only k now s in
    (if str_eq (client_or_unknown k) c && d.allowed then 1 else 0) + admissions c l s'

-- The times do not go back, from `t` on.
abbrev pub InOrder : ℕ → Trace → Type 0
InOrder t [] = Unit
InOrder t ((k, now) ∷ l) = (t ≤ now) × InOrder now l

abbrev pub last_time : ℕ → Trace → ℕ
last_time t [] = t
last_time t ((k, now) ∷ l) = last_time now l

last_time_later : (t : ℕ) (l : Trace) → InOrder t l → t ≤ last_time t l
last_time_later t [] h = omega arith
last_time_later t ((k, now) ∷ l) h = omega (arith, last_time_later now l h.1)

sub_self : (n : ℕ) → n - n ≡ 0
sub_self n = omega arith

abbrev spent : Bool → ℕ
spent b = if b then token else 0

level_now : (s : RateLimiter) (n now : ℕ) → level s (some (n, now)) now ≡ min (capacity s) n
unfolding level
level_now s n now = rw (sub_self now) (omega arith)

module _ (c k : String) (now : ℕ) (s : RateLimiter) (on : 0 < s.requests_per_minute) where
  -- With room in the table a call changes one bucket, and pays for what it admits.
  bucket-take_token :
      length s.buckets + 1 ≤ max_tracked_clients
      → bucket c (take_token k now s).1
        ≡ (if str_eq k c then some (charged (level s (bucket k s) now), now) else bucket c s)
  unfolding take_token refill
  bucket-take_token room =
      let units : ℕ = level s (lookup k s.buckets) now in
      let d = insert k (units, now) s.buckets in
      ground (
        arith,
        prune_small now d,
        length-insert k (units, now) s.buckets,
        lookup-insert k c (units, now) s.buckets,
        lookup-insert k c (units - token, now) d,
      )

  take_token_room :
      length s.buckets + 1 ≤ max_tracked_clients
      → length (take_token k now s).1.buckets ≤ length s.buckets + 1
  unfolding take_token refill
  take_token_room room =
      let units : ℕ = level s (lookup k s.buckets) now in
      let d = insert k (units, now) s.buckets in
      ground (
        arith,
        prune_small now d,
        length-insert k (units, now) s.buckets,
        lookup-insert k k (units, now) s.buckets,
        eq_refl k,
        length-insert_known k (units - token, now) d,
      )

  level_charged :
      level s (some (charged (level s (bucket k s) now), now)) now
        + spent (if ltb (level s (bucket k s) now) token then false else true)
      ≡ level s (bucket k s) now
  level_charged = ground (
    arith,
    level-le-capacity s (bucket k s) now,
    level_now s (charged (level s (bucket k s) now)) now,
  )

  take_token_pays :
      length s.buckets + 1 ≤ max_tracked_clients
      → level (take_token k now s).1 (bucket c (take_token k now s).1) now
          + spent (str_eq k c && admits (take_token k now s).0)
        ≤ level s (bucket c s) now
  take_token_pays room = ground (
    arith,
    bucket-take_token room,
    take_token_answer k now s,
    level_rate s (take_token k now s).1 (bucket c (take_token k now s).1) now,
    level_charged,
    eq_iff k c,
  )

check_rpm_only_room :
    (k : String) (now : ℕ) (s : RateLimiter)
    → 0 < s.requests_per_minute
    → length s.buckets + 1 ≤ max_tracked_clients
    → length (check_rpm_only k now s).1.buckets ≤ length s.buckets + 1
check_rpm_only_room k now s on room =
    rw (check_rpm_only-answer k now s).0 (take_token_room k (client_or_unknown k) now s on room)

check_rpm_only_rate :
    (k : String) (now : ℕ) (s : RateLimiter)
    → (check_rpm_only k now s).1.requests_per_minute ≡ s.requests_per_minute
check_rpm_only_rate k now s =
    rw (check_rpm_only-answer k now s).0 (take_token_answer (client_or_unknown k) now s).1

check_rpm_only_pays :
    (c k : String) (now : ℕ) (s : RateLimiter)
    → 0 < s.requests_per_minute
    → length s.buckets + 1 ≤ max_tracked_clients
    → level (check_rpm_only k now s).1 (bucket c (check_rpm_only k now s).1) now
        + spent (str_eq (client_or_unknown k) c && (check_rpm_only k now s).0.allowed)
      ≤ level s (bucket c s) now
check_rpm_only_pays c k now s on room =
    rw ((check_rpm_only-answer k now s).0, (check_rpm_only-answer k now s).1)
      (take_token_pays c (client_or_unknown k) now s on room)

refill_split :
    (t now last rate : ℕ)
    → t ≤ now
    → now ≤ last
    → (last - now) * rate + (now - t) * rate ≡ (last - t) * rate
refill_split t now last rate h k = grind arith

-- The same from what the client's bucket holds at the start.
budget :
    (c : String) (t : ℕ) (l : Trace) (s : RateLimiter)
    → 0 < s.requests_per_minute
    → length s.buckets + length l ≤ max_tracked_clients
    → InOrder t l
    → token * admissions c l s
      ≤ level s (bucket c s) t + (last_time t l - t) * s.requests_per_minute
unfolding admissions
budget c t [] s on room order = omega arith
budget c t ((k, now) ∷ l) s on room order =
    let s' : RateLimiter = (check_rpm_only k now s).1 in
    let rate = check_rpm_only_rate k now s in
    ground (
      arith,
      budget c now l s' (omega (arith, rate))
          (omega (arith, check_rpm_only_room k now s on (omega arith))) order.1,
      rate,
      check_rpm_only_pays c k now s on (omega arith),
      level_later s (bucket c s) t now order.0,
      refill_split t now (last_time now l) s.requests_per_minute order.0
          (last_time_later now l order.1),
    )

-- Over any history with room for its clients, in order of time, what a client is admitted costs at
-- most a full bucket and the refill of the time between the start and the last request.
pub admissions_bound :
    (c : String) (t : ℕ) (l : Trace) (s : RateLimiter)
    → 0 < s.requests_per_minute
    → length s.buckets + length l ≤ max_tracked_clients
    → InOrder t l
    → token * admissions c l s ≤ capacity s + (last_time t l - t) * s.requests_per_minute
admissions_bound c t l s on room order =
    omega (arith, budget c t l s on room order, level-le-capacity s (bucket c s) t)
