-- ===== src/Slots/Conservation.antt =====
-- No slot of `rate_limit_middleware` (unify_llm/app.py) is lost or given back twice.
use unify_llm.Prelude.{
  ℕ, zero, suc, ◌+◌, ◌≤◌, ◌≡◌, refl, String, Bool, true, false, Option, none, some, List, [], ◌∷◌,
  ◌++◌, arith, if◌then◌else◌, count_if,
}
use unify_llm.Prelude.Int.{ℤ}
use unify_llm.RateLimit.{
  RateLimiter, init, check_rpm_only, try_reserve_concurrency, enter_queue, leave_queue, release,
  update_config,
}
use unify_llm.RateLimit.Counters.{check_rpm_only_counts}
use unify_llm.Slots.{
  Phase, waiting, running, streaming, Gateway, Event, get_elem?, set, reserve_or_queue, admit,
  poll_slot, advance, advance_at, at_phase, step, run, poll, cancel, raise, close, respond, reload,
  arrive,
}

abbrev pub holds_slot : Phase → Bool
holds_slot running = true
holds_slot streaming = true
holds_slot _ = false

abbrev pub waits : Phase → Bool
waits (waiting _) = true
waits _ = false

abbrev one : Bool → ℕ
one b = if b then 1 else 0

count_if-append_one :
    (q : Phase → Bool) (ps : List Phase) (p : Phase)
    → count_if q (ps ++ p ∷ []) ≡ count_if q ps + one (q p)
count_if-append_one q [] p = omega arith
count_if-append_one q (x ∷ ps) p = omega (arith, count_if-append_one q ps p)

count_if-set :
    (q : Phase → Bool) (ps : List Phase) (i : ℕ) (p p' : Phase)
    → get_elem? ps i ≡ some p
    → count_if q (set ps i p') + one (q p) ≡ count_if q ps + one (q p')
count_if-set q [] i p p' h = cc
count_if-set q (x ∷ ps) zero p p' h = ground arith
count_if-set q (x ∷ ps) (suc i) p p' h = omega (arith, count_if-set q ps i p p' h)

-- A phase that a call leaves and the limiter beside it, against those it began with.
abbrev Balanced : Bool → Bool → RateLimiter → Phase × RateLimiter → Type 0
Balanced held queued l (p, l') =
    (l'.active + one held ≡ l.active + one (holds_slot p))
    × (l'.queued + one queued ≡ l.queued + one (waits p))

reserve_or_queue-Balanced :
    (now : ℕ) (l : RateLimiter) → Balanced false false l (reserve_or_queue now l)
unfolding reserve_or_queue try_reserve_concurrency enter_queue
reserve_or_queue-Balanced now l = ground arith

admit-Balanced :
    (path client : String) (now : ℕ) (l : RateLimiter)
    → Balanced false false l (admit path client now l)
unfolding admit
admit-Balanced path client now l = ground (
  arith,
  check_rpm_only_counts client now l,
  reserve_or_queue-Balanced now (check_rpm_only client now l).1,
)

-- What an event keeps of the request that it names.
advance-Balanced :
    (e : Event) (p : Phase) (l : RateLimiter)
    → one (holds_slot p) ≤ l.active
    → one (waits p) ≤ l.queued
    → Balanced (holds_slot p) (waits p) l (advance e p l)
unfolding advance poll_slot try_reserve_concurrency leave_queue release
advance-Balanced (poll i now) (waiting deadline) l h k = ground arith
advance-Balanced e p l h k = ground arith

-- The limiter counts exactly the requests that hold a slot and those that wait for one.
pub record IsBalanced (g : Gateway) : Type 0 where
  pub slots : g.limiter.active ≡ count_if holds_slot g.requests
  pub queue : g.limiter.queued ≡ count_if waits g.requests

count_if-get :
    (q : Phase → Bool) (ps : List Phase) (i : ℕ) (p : Phase)
    → get_elem? ps i ≡ some p
    → one (q p) ≤ count_if q ps
count_if-get q [] i p h = cc
count_if-get q (x ∷ ps) zero p h = ground arith
count_if-get q (x ∷ ps) (suc i) p h = omega (arith, count_if-get q ps i p h)

at_phase-IsBalanced :
    (e : Event) (i : ℕ) (g : Gateway) (o : Option Phase)
    → get_elem? g.requests i ≡ o
    → IsBalanced g
    → IsBalanced (at_phase e i g o)
unfolding at_phase
at_phase-IsBalanced e i g none found b = b
at_phase-IsBalanced e i g (some p) found b =
    let p' : Phase = (advance e p g.limiter).0 in
    let kept : Balanced (holds_slot p) (waits p) g.limiter (advance e p g.limiter) =
      advance-Balanced e p g.limiter
        (omega (arith, b.slots, count_if-get holds_slot g.requests i p found))
        (omega (arith, b.queue, count_if-get waits g.requests i p found)) in
    record {
      slots = omega (arith, kept.0, b.slots, count_if-set holds_slot g.requests i p p' found);
      queue = omega (arith, kept.1, b.queue, count_if-set waits g.requests i p p' found);
    }

advance_at-IsBalanced :
    (e : Event) (i : ℕ) (g : Gateway) → IsBalanced g → IsBalanced (advance_at e i g)
unfolding advance_at
advance_at-IsBalanced e i g b = at_phase-IsBalanced e i g (get_elem? g.requests i) refl b

step-IsBalanced : (e : Event) (g : Gateway) → IsBalanced g → IsBalanced (step e g)
unfolding step update_config
step-IsBalanced (arrive path client now) g b =
    let p : Phase = (admit path client now g.limiter).0 in
    let kept : Balanced false false g.limiter (admit path client now g.limiter) =
      admit-Balanced path client now g.limiter in
    record {
      slots = omega (arith, kept.0, b.slots, count_if-append_one holds_slot g.requests p);
      queue = omega (arith, kept.1, b.queue, count_if-append_one waits g.requests p);
    }
step-IsBalanced (reload rpm conc queue timeout) g b = record { slots = b.slots; queue = b.queue }
step-IsBalanced (poll i now) g b = advance_at-IsBalanced (poll i now) i g b
step-IsBalanced (cancel i) g b = advance_at-IsBalanced (cancel i) i g b
step-IsBalanced (raise i) g b = advance_at-IsBalanced (raise i) i g b
step-IsBalanced (respond i body) g b = advance_at-IsBalanced (respond i body) i g b
step-IsBalanced (close i) g b = advance_at-IsBalanced (close i) i g b

run-IsBalanced : (l : List Event) (g : Gateway) → IsBalanced g → IsBalanced (run l g)
unfolding run
run-IsBalanced [] g b = b
run-IsBalanced (e ∷ l) g b = run-IsBalanced l (step e g) (step-IsBalanced e g b)

abbrev pub start : ℤ → ℤ → ℤ → ℤ → Gateway
start rpm conc queue timeout = record { limiter = init rpm conc queue timeout; requests = [] }

-- After any history of arrivals, polls, cancellations, errors, answers, closed streams and reloads,
-- the limiter's `_active` is the number of requests that are running or streaming, and its `_queued`
-- the number that wait.
pub slots_conserved :
    (rpm conc queue timeout : ℤ) (l : List Event)
    → let g = run l (start rpm conc queue timeout) in
      (g.limiter.active ≡ count_if holds_slot g.requests)
      × (g.limiter.queued ≡ count_if waits g.requests)
unfolding init
slots_conserved rpm conc queue timeout l =
    let b =
      run-IsBalanced l (start rpm conc queue timeout) (record { slots = refl; queue = refl }) in
    (b.slots, b.queue)
