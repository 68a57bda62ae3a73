-- ===== src/Slots/Caps.antt =====
-- The concurrency cap and the queue's bound under `rate_limit_middleware` (unify_llm/app.py).
use unify_llm.Prelude.{
  ℕ, ◌≤◌, ◌<◌, ◌≡◌, refl, String, Option, none, some, List, [], ◌∷◌, arith, count_if, All,
}
use unify_llm.Prelude.Int.{ℤ, pos}
use unify_llm.RateLimit.{
  RateLimiter, init, check_rpm_only, try_reserve_concurrency, enter_queue, leave_queue, release,
}
use unify_llm.RateLimit.Counters.{check_rpm_only_counts}
use unify_llm.Slots.{
  Phase, waiting, Gateway, Event, get_elem?, reserve_or_queue, admit, poll_slot, advance,
  advance_at, at_phase, step, run, poll, cancel, raise, close, respond, reload, arrive,
}
use unify_llm.Slots.Conservation.{holds_slot, waits, start, slots_conserved}

-- The configuration stays, and neither count passes its bound, which is off at 0.
pub record IsCapped (conc queue : ℕ) (l : RateLimiter) : Type 0 where
  pub same_concurrent : l.max_concurrent ≡ conc
  pub same_queue : l.max_queue ≡ queue
  pub under_cap : 0 < conc → l.active ≤ conc
  pub under_queue : 0 < queue → l.queued ≤ queue

module _ (conc queue : ℕ) (l : RateLimiter) (c : IsCapped conc queue l) where
  reserve_or_queue-IsCapped : (now : ℕ) → IsCapped conc queue (reserve_or_queue now l).1
  unfolding reserve_or_queue try_reserve_concurrency enter_queue
  reserve_or_queue-IsCapped now = ground arith

  checked-IsCapped :
      (client : String) (now : ℕ) → IsCapped conc queue (check_rpm_only client now l).1
  checked-IsCapped client now = ground (arith, check_rpm_only_counts client now l)

module _ (conc queue : ℕ) where
  admit-IsCapped :
      (path client : String) (now : ℕ) (l : RateLimiter)
      → IsCapped conc queue l
      → IsCapped conc queue (admit path client now l).1
  unfolding admit
  admit-IsCapped path client now l c = ground (
    arith,
    checked-IsCapped conc queue l c client now,
    reserve_or_queue-IsCapped conc queue (check_rpm_only client now l).1
        (checked-IsCapped conc queue l c client now) now,
  )

  advance-IsCapped :
      (e : Event) (p : Phase) (l : RateLimiter)
      → IsCapped conc queue l
      → IsCapped conc queue (advance e p l).1
  unfolding advance poll_slot try_reserve_concurrency leave_queue release
  advance-IsCapped (poll i now) (waiting deadline) l c = ground arith
  advance-IsCapped e p l c = ground arith

  at_phase-IsCapped :
      (e : Event) (i : ℕ) (g : Gateway) (o : Option Phase)
      → IsCapped conc queue g.limiter
      → IsCapped conc queue (at_phase e i g o).limiter
  unfolding at_phase
  at_phase-IsCapped e i g none c = c
  at_phase-IsCapped e i g (some p) c = advance-IsCapped e p g.limiter c

-- The events other than a reload of the configuration.
abbrev pub IsTraffic : Event → Type 0
IsTraffic (reload _ _ _ _) = ⊥
IsTraffic (arrive _ _ _) = Unit
IsTraffic (poll _ _) = Unit
IsTraffic (cancel _) = Unit
IsTraffic (raise _) = Unit
IsTraffic (respond _ _) = Unit
IsTraffic (close _) = Unit

step-IsCapped :
    (conc queue : ℕ) (e : Event) (g : Gateway)
    → IsTraffic e
    → IsCapped conc queue g.limiter
    → IsCapped conc queue (step e g).limiter
unfolding step advance_at
step-IsCapped m q (arrive path client now) g h c = admit-IsCapped m q path client now g.limiter c
step-IsCapped m q (reload rpm conc queue timeout) g h c = absurd h
step-IsCapped m q (poll i now) g h c =
    at_phase-IsCapped m q (poll i now) i g (get_elem? g.requests i) c
step-IsCapped m q (cancel i) g h c = at_phase-IsCapped m q (cancel i) i g (get_elem? g.requests i) c
step-IsCapped m q (raise i) g h c = at_phase-IsCapped m q (raise i) i g (get_elem? g.requests i) c
step-IsCapped m q (respond i body) g h c =
    at_phase-IsCapped m q (respond i body) i g (get_elem? g.requests i) c
step-IsCapped m q (close i) g h c = at_phase-IsCapped m q (close i) i g (get_elem? g.requests i) c

run-IsCapped :
    (conc queue : ℕ) (l : List Event) (g : Gateway)
    → All IsTraffic l
    → IsCapped conc queue g.limiter
    → IsCapped conc queue (run l g).limiter
unfolding run
run-IsCapped m q [] g h c = c
run-IsCapped m q (e ∷ l) g h c = run-IsCapped m q l (step e g) h.1 (step-IsCapped m q e g h.0 c)

-- While the configuration is not reloaded, never more requests run or stream at once than
-- `max_concurrent` allows, and never more wait than `max_queue` allows; 0 turns a bound off.
pub traffic_capped :
    (rpm : ℤ) (conc queue : ℕ) (timeout : ℤ) (l : List Event)
    → All IsTraffic l
    → let g = run l (start rpm (pos conc) (pos queue) timeout) in
      (0 < conc → count_if holds_slot g.requests ≤ conc)
      × (0 < queue → count_if waits g.requests ≤ queue)
unfolding init
traffic_capped rpm conc queue timeout l h =
    let c = run-IsCapped conc queue l (start rpm (pos conc) (pos queue) timeout) h (record {
      same_concurrent = refl;
      same_queue = refl;
      under_cap = λ p. omega arith;
      under_queue = λ p. omega arith;
    }) in
    let b = slots_conserved rpm (pos conc) (pos queue) timeout l in
    (λ p. omega (arith, b.0, c.under_cap p), λ p. omega (arith, b.1, c.under_queue p))
