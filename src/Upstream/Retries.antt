-- ===== src/Upstream/Retries.antt =====
-- Which answer the retry loop of unify_llm/adapters/base.py ends with, and what it waits before.
use unify_llm.Prelude.{
  ℕ, zero, suc, ◌+◌, ◌≤◌, ◌<◌, ◌≡◌, refl, Bool, true, false, none, some, List, [], ◌∷◌, arith, leb,
  if◌then◌else◌, ◌⊎◌, inl, inr, Bool-cases, ap, sym, ◌∙◌,
}
use unify_llm.Upstream.{
  Answer, response, broken, Outcome, returned, raised, is_retryable_status, should_retry,
  one_attempt, attempts, request_with_retries,
}

-- What a last answer becomes: only a request that streams gets a failing response back.
abbrev pub settled : Bool → Answer → Outcome
settled stream (response s) =
    if leb 400 s then (if stream then returned s else raised s) else returned s
settled stream (broken e) = raised 502

-- The waits after the attempts from `k` on: one backoff more each time.
abbrev pub waits_from : ℕ → ℕ → List ℕ
waits_from k zero = []
waits_from k (suc n) = (k + 1) ∷ waits_from (k + 1) n

-- The loop that starts at attempt `k` with `left` retries stops `n` attempts later.
abbrev pub Stops : ℕ → ℕ → ℕ → Bool → (ℕ → Answer) → Outcome × List ℕ → Type 0
Stops n left k stream answer (o, waits) =
    (n ≤ left)
    × ((i : ℕ) → i < n → should_retry (answer (k + i)) ≡ true)
    × ((n ≡ left) ⊎ (should_retry (answer (k + n)) ≡ false))
    × (o ≡ settled stream (answer (k + n)))
    × (waits ≡ waits_from k n)

one_attempt_last :
    (stream : Bool) (a : Answer) → one_attempt false stream a ≡ some (settled stream a)
unfolding one_attempt
one_attempt_last stream (response s) = ground arith
one_attempt_last stream (broken e) = ground arith

one_attempt_more :
    (stream : Bool) (a : Answer)
    → one_attempt true stream a ≡ (if should_retry a then none else some (settled stream a))
unfolding one_attempt should_retry is_retryable_status
one_attempt_more stream (response s) = ground arith
one_attempt_more stream (broken e) = ground arith

plus_zero : (k : ℕ) → k + 0 ≡ k
plus_zero k = omega arith

plus_suc : (k n : ℕ) → k + suc n ≡ k + 1 + n
plus_suc k n = omega arith

-- One attempt that is tried again, before a loop that stops.
before :
    (left k n : ℕ) (stream : Bool) (answer : ℕ → Answer) (o : Outcome) (waits : List ℕ)
    → should_retry (answer k) ≡ true
    → Stops n left (k + 1) stream answer (o, waits)
    → Stops (suc n) (suc left) k stream answer (o, (k + 1) ∷ waits)
before left k n stream answer o waits again (few, tried, ends, outcome, slept) = (
  omega arith,
  earlier,
  (elim ends [ inl e ↦ inl (omega arith) | inr stop ↦ inr (rw (plus_suc k n) stop) ]),
  rw (plus_suc k n) outcome,
  ap (λ l. (k + 1) ∷ l) slept,
)
  where
    earlier : (i : ℕ) → i < suc n → should_retry (answer (k + i)) ≡ true
    earlier zero h = rw (plus_zero k) again
    earlier (suc i) h = rw (plus_suc k i) (tried i (omega arith))

stops_now :
    (left k : ℕ) (stream : Bool) (answer : ℕ → Answer)
    → ((0 ≡ left) ⊎ (should_retry (answer k) ≡ false))
    → Stops 0 left k stream answer (settled stream (answer k), [])
stops_now left k stream answer h =
    (omega arith, λ i l. absurd (omega arith), rw (plus_zero k) h, rw (plus_zero k) refl, refl)

module _ (left k : ℕ) (stream : Bool) (answer : ℕ → Answer) where
  attempts_last : attempts 1 k stream answer ≡ (settled stream (answer k), [])
  unfolding attempts
  attempts_last = rw (one_attempt_last stream (answer k), attempts) refl

  attempts_stop :
      should_retry (answer k) ≡ false
      → attempts (suc (suc left)) k stream answer ≡ (settled stream (answer k), [])
  unfolding attempts
  attempts_stop h = rw (one_attempt_more stream (answer k), h, attempts) refl

  attempts_again :
      should_retry (answer k) ≡ true
      → attempts (suc (suc left)) k stream answer ≡ (
        (attempts (suc left) (k + 1) stream answer).0,
        (k + 1) ∷ (attempts (suc left) (k + 1) stream answer).1,
      )
  unfolding attempts
  attempts_again h = rw (one_attempt_more stream (answer k), h, attempts) refl

attempts-Stops :
    (left k : ℕ) (stream : Bool) (answer : ℕ → Answer)
    → (n : ℕ) × Stops n left k stream answer (attempts (suc left) k stream answer)
attempts-Stops zero k stream answer =
    rw (attempts_last 0 k stream answer) (0, stops_now 0 k stream answer (inl refl))
attempts-Stops (suc left) k stream answer = elim (Bool-cases (should_retry (answer k))) [
  | inl again ↦
      (let found = attempts-Stops left (k + 1) stream answer in
        let (o, waits) = attempts (suc left) (k + 1) stream answer in
        rw (attempts_again left k stream answer again) (
          suc found.0,
          before left k found.0 stream answer (attempts (suc left) (k + 1) stream answer).0
              (attempts (suc left) (k + 1) stream answer).1 again found.1,
        ))
  | inr stop ↦
      rw (attempts_stop left k stream answer stop)
        (0, stops_now (suc left) k stream answer (inr stop))
]

-- The loop stops after `n` attempts more than the first, at most as many as there are retries: each
-- answer before was one to retry, the last is not or no retry is left, it decides the outcome, and
-- the waits in between are one backoff, two backoffs and so on.
pub request_with_retries-Stops :
    (retries : ℕ) (stream : Bool) (answer : ℕ → Answer)
    → (n : ℕ) × Stops n retries 0 stream answer (request_with_retries retries stream answer)
unfolding request_with_retries
request_with_retries-Stops retries stream answer = attempts-Stops retries 0 stream answer

settled_success : (a : Answer) (s : ℕ) → settled false a ≡ returned s → s < 400
settled_success (response t) s e = ground arith
settled_success (broken f) s e = cc

-- A response that is returned for a request that does not stream has a status below 400: every
-- failing status is raised as an error.
pub returned_is_success :
    (retries : ℕ) (answer : ℕ → Answer) (s : ℕ)
    → (request_with_retries retries false answer).0 ≡ returned s
    → s < 400
returned_is_success retries answer s e =
    let (n, (_, _, _, outcome, _)) = request_with_retries-Stops retries false answer in
    settled_success (answer (0 + n)) s (sym outcome ∙ e)
