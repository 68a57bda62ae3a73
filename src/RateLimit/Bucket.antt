-- ===== src/RateLimit/Bucket.antt =====
-- What the token bucket of unify_llm/rate_limit.py promises a client: its share over any history, and
-- that a refusal's waiting time is honest.
use unify_llm.Prelude.{
  ℕ, ◌+◌, ◌-◌, ◌*◌, ◌/◌, ◌≤◌, ◌<◌, max, String, ◌≡◌, ◌∙◌, ◌⊎◌, inl, inr, Bool, true, false, Option,
  none, some, [], ◌∷◌, refl, arith, ltb, if◌then◌else◌, length, Bool-cases, take, keep,
}
use unify_llm.Prelude.Dict.{Dict, lookup, insert, erase, lookup-insert, lookup-erase}
use unify_llm.Prelude.Text.{eq_refl}
use unify_llm.RateLimit.{
  RateLimiter, token, second, capacity, max_tracked_clients, erase_all, drop_oldest, sort_by_time,
  stale, prune, level, refill, take_token, check_rpm_only, client_or_unknown, retry_seconds,
  Admission, admitted, refused, finish_rpm,
}

abbrev Buckets : Type 0
Buckets = Dict (ℕ × ℕ)

abbrev pub bucket : String → RateLimiter → Option (ℕ × ℕ)
bucket client s = lookup client s.buckets

ceil_enough : (x q : ℕ) → 0 < q → x ≤ (x + (q - 1)) / q * q
ceil_enough x q h = grind arith

pub mul_le : (a b c : ℕ) → a ≤ b → a * c ≤ b * c
mul_le a b c h = grind arith

-- Time adds at most its refill to a bucket.
pub level_later :
    (s : RateLimiter) (b : Option (ℕ × ℕ)) (t u : ℕ)
    → t ≤ u
    → level s b u ≤ level s b t + (u - t) * s.requests_per_minute
unfolding level
level_later s none t u h = omega arith
level_later s (some (n, at)) t u h =
    ground (arith, mul_le (u - at) ((t - at) + (u - t)) s.requests_per_minute (omega arith))

pub level-le-capacity : (s : RateLimiter) (b : Option (ℕ × ℕ)) (t : ℕ) → level s b t ≤ capacity s
unfolding level
level-le-capacity s none t = omega arith
level-le-capacity s (some (n, at)) t = ground arith

-- A pruning keeps a client's bucket or drops it.
lookup-erase_all :
    (j : String) (l d : Buckets)
    → (lookup j (erase_all l d) ≡ none) ⊎ (lookup j (erase_all l d) ≡ lookup j d)
unfolding erase_all
lookup-erase_all j [] d = inr refl
lookup-erase_all j ((k, _) ∷ l) d =
    ground (arith, lookup-erase_all j l (erase k d), lookup-erase k j d)

lookup-drop_oldest :
    (j : String) (d : Buckets)
    → (lookup j (drop_oldest d) ≡ none) ⊎ (lookup j (drop_oldest d) ≡ lookup j d)
unfolding drop_oldest
lookup-drop_oldest j d = elim (Bool-cases (ltb max_tracked_clients (length d))) [
  | inl many ↦
      rw many (lookup-erase_all j (take (length d - max_tracked_clients) (sort_by_time d)) d)
  | inr few ↦ rw few (inr refl)
]

lookup-prune :
    (j : String) (now : ℕ) (d : Buckets)
    → (lookup j (prune now d) ≡ none) ⊎ (lookup j (prune now d) ≡ lookup j d)
unfolding prune
lookup-prune j now d = ground (
  arith,
  lookup-erase_all j (keep (stale now) d) d,
  lookup-drop_oldest j (erase_all (keep (stale now) d) d),
)

pub prune_small : (now : ℕ) (d : Buckets) → length d ≤ max_tracked_clients → prune now d ≡ d
unfolding prune
prune_small now d h = ground arith

-- The state after a call of `take_token` with the limit on, by what the bucket held.
abbrev pub charged : ℕ → ℕ
charged units = if ltb units token then units else units - token

bucket-take_token_self :
    (client : String) (now : ℕ) (s : RateLimiter)
    → 0 < s.requests_per_minute
    → let s' = (take_token client now s).1 in
      let units = level s (bucket client s) now in
      (bucket client s' ≡ none) × (ltb units token ≡ true)
      ⊎ (bucket client s' ≡ some (charged units, now))
unfolding take_token refill
bucket-take_token_self client now s h =
    let units : ℕ = level s (lookup client s.buckets) now in
    let d : Buckets = insert client (units, now) s.buckets in
    ground (
      arith,
      lookup-prune client now d,
      lookup-insert client client (units, now) s.buckets,
      lookup-insert client client (units - token, now) (prune now d),
      eq_refl client,
    )

abbrev pub admits : Admission → Bool
admits (admitted left) = true
admits (refused retry) = false

-- What a call answers and leaves behind, with the limit on or off.
pub take_token_answer :
    (client : String) (now : ℕ) (s : RateLimiter)
    → (admits (take_token client now s).0 ≡ (
        if ltb 0 s.requests_per_minute
        then (if ltb (level s (bucket client s) now) token then false else true)
        else true))
      × ((take_token client now s).1.requests_per_minute ≡ s.requests_per_minute)
unfolding take_token refill
take_token_answer client now s = ground arith

pub check_rpm_only-answer :
    (client : String) (now : ℕ) (s : RateLimiter)
    → let answer = check_rpm_only client now s in
      let inner = take_token (client_or_unknown client) now s in
      (answer.1 ≡ inner.1)
      × (answer.0.allowed ≡ admits inner.0)
      × (answer.0.allowed ≡ false → inner.0 ≡ refused answer.0.retry_after)
unfolding check_rpm_only
check_rpm_only-answer client now s = go (take_token (client_or_unknown client) now s)
  where
    go :
        (p : Admission × RateLimiter)
        → ((finish_rpm p).1 ≡ p.1)
          × ((finish_rpm p).0.allowed ≡ admits p.0)
          × ((finish_rpm p).0.allowed ≡ false → p.0 ≡ refused (finish_rpm p).0.retry_after)
    go (admitted left, t) = (refl, refl, λ e. cc)
    go (refused retry, t) = (refl, refl, λ e. refl)

take_token-refused :
    (client : String) (now retry : ℕ) (s : RateLimiter)
    → (take_token client now s).0 ≡ refused retry
    → (0 < s.requests_per_minute)
      × (level s (bucket client s) now < token)
      × (retry ≡ retry_seconds (level s (bucket client s) now) s.requests_per_minute)
unfolding take_token refill
take_token-refused client now retry s h = ground arith

-- After the waiting time of a refusal the bucket holds a token.
retry_fills : (units rpm : ℕ) → 0 < rpm → token ≤ units + retry_seconds units rpm * second * rpm
unfolding retry_seconds
retry_fills units rpm h =
    let q : ℕ = rpm * second in
    let x : ℕ = (token - units + (q - 1)) / q in
    omega (arith, ceil_enough (token - units) q (omega arith), mul_le x (max 1 x) q (omega arith))

level_after_wait :
    (s : RateLimiter) (units now later : ℕ)
    → 0 < s.requests_per_minute
    → units < token
    → now + retry_seconds units s.requests_per_minute * second ≤ later
    → token ≤ level s (some (units, now)) later
unfolding level
level_after_wait s units now later h lt wait =
    let rpm : ℕ = s.requests_per_minute in
    omega (
      arith,
      retry_fills units rpm h,
      mul_le (retry_seconds units rpm * second) (later - now) rpm (omega arith),
    )

level_fresh : (s : RateLimiter) (later : ℕ) → 0 < s.requests_per_minute → token ≤ level s none later
unfolding level
level_fresh s later h = omega arith

pub level_rate :
    (s t : RateLimiter) (b : Option (ℕ × ℕ)) (now : ℕ)
    → t.requests_per_minute ≡ s.requests_per_minute
    → level t b now ≡ level s b now
unfolding level
level_rate s t none now h = rw h
level_rate s t (some (n, at)) now h = rw h

take_token_retry :
    (client : String) (now later retry : ℕ) (s : RateLimiter)
    → (take_token client now s).0 ≡ refused retry
    → now + retry * second ≤ later
    → admits (take_token client later (take_token client now s).1).0 ≡ true
take_token_retry client now later retry s e wait =
    let s' : RateLimiter = (take_token client now s).1 in
    let units : ℕ = level s (bucket client s) now in
    let was = take_token-refused client now retry s e in
    let filled : token ≤ level s (some (units, now)) later =
      level_after_wait s units now later was.0 was.1 (omega arith) in
    ground (
      arith,
      take_token_answer client later s',
      take_token_answer client now s,
      bucket-take_token_self client now s was.0,
      level_rate s s' (bucket client s') later,
      level_fresh s later,
    )

-- A client that is refused, and asks again when the given number of seconds has passed, is admitted.
pub retry_after_admits :
    (client : String) (now later : ℕ) (s : RateLimiter)
    → (check_rpm_only client now s).0.allowed ≡ false
    → now + (check_rpm_only client now s).0.retry_after * second ≤ later
    → (check_rpm_only client later (check_rpm_only client now s).1).0.allowed ≡ true
retry_after_admits client now later s refusal wait =
    let name : String = client_or_unknown client in
    let s' : RateLimiter = (check_rpm_only client now s).1 in
    let answer = check_rpm_only-answer client now s in
    let again : admits (take_token name later s').0 ≡ true = rw answer.0 (
      take_token_retry name now later (check_rpm_only client now s).0.retry_after s
        (answer.2 refusal) wait) in
    (check_rpm_only-answer client later s').1 ∙ again
