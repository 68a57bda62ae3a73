-- ===== src/MaxTokens/Policy.antt =====
-- What `apply_max_tokens_policy` of unify_llm/convert.py guarantees.
use unify_llm.Prelude.{
  ℕ, zero, suc, ◌≤◌, ◌<◌, ◌≡◌, refl, Bool, true, false, ◌&&◌, Option, none, some, arith, ltb,
  Option-cases, inl, inr, ◌⊎◌, if_either,
}
use unify_llm.Prelude.Int.{pos, negsuc}
use unify_llm.MaxTokens.{
  Value, number, unreadable, Body, at_least_one, client_n, with_max, apply_limit,
  apply_max_tokens_policy,
}

-- A number below 1 counts as 1.
abbrev asked_by : Value → Option ℕ
asked_by (number (pos zero)) = some 1
asked_by (number (pos (suc n))) = some (suc n)
asked_by (number (negsuc n)) = some 1
asked_by unreadable = none

-- The number that a body asks for: that of `max_tokens` if the key is there, or else that of
-- `max_completion_tokens`.
abbrev pub asked : Body → Option ℕ
asked b = elim b.max_tokens [
  | none ↦ (elim b.max_completion_tokens [ none ↦ none | some v ↦ asked_by v ])
  | some v ↦ asked_by v
]

at_least_one-asked_by : (v : Value) → at_least_one (some v) ≡ asked_by v
at_least_one-asked_by (number (pos zero)) = refl
at_least_one-asked_by (number (pos (suc n))) = ground arith
at_least_one-asked_by (number (negsuc n)) = refl
at_least_one-asked_by unreadable = refl

at_least_one-asked :
    (v w : Option Value)
    → client_n (record { max_tokens = v; max_completion_tokens = w })
      ≡ asked (record { max_tokens = v; max_completion_tokens = w })
at_least_one-asked none none = refl
at_least_one-asked none (some w) = at_least_one-asked_by w
at_least_one-asked (some v) w = at_least_one-asked_by v

client_n-asked : (b : Body) → client_n b ≡ asked b
client_n-asked b = at_least_one-asked b.max_tokens b.max_completion_tokens

-- A body that asks for `o` is to be given the limit `l`: it has no number, or a lower one that may be
-- raised.
abbrev pub Wanting : Bool → ℕ → Option ℕ → Type 0
Wanting raise l none = Unit
Wanting raise l (some n) = (raise ≡ true) × (n < l)

-- A body that asks for `o` is left as it is: there is no limit, or a number which may not be raised or
-- is not below the limit.
abbrev pub Content : Option ℕ → Bool → Option ℕ → Type 0
Content none raise o = Unit
Content (some l) raise o = (l ≡ 0) ⊎ ((n : ℕ) × (o ≡ some n) × ((raise ≡ false) ⊎ (l ≤ n)))

-- The body and the number that the policy answers where the body asks for `o`.
abbrev pub Outcome : Option ℕ → Bool → Body → Option ℕ → Body × Option ℕ → Type 0
Outcome limit raise b o r =
    ((l : ℕ) × (limit ≡ some l)
      × (0 < l)
      × Wanting raise l o
      × (r ≡ (record b { max_tokens = some (number (pos l)) }, some l)))
    ⊎ (Content limit raise o × (r ≡ (b, o)))

not_raised-Content :
    (limit n : ℕ) (raise : Bool)
    → (raise && ltb 0 limit && ltb n limit) ≡ false
    → Content (some limit) raise (some n)
not_raised-Content zero n raise h = inl refl
not_raised-Content (suc l) n false h = inr (n, refl, inl refl)
not_raised-Content (suc l) n true h = inr (n, refl, inr (ground (arith, h)))

apply_limit-Outcome :
    (limit : ℕ) (raise : Bool) (b : Body) (o : Option ℕ)
    → Outcome (some limit) raise b o (apply_limit limit raise b o)
unfolding apply_limit
apply_limit-Outcome limit raise b none =
    if_either {A = Body × Option ℕ} (Outcome (some limit) raise b none) (ltb 0 limit)
      (with_max limit b, some limit) (b, none) (λ h. inl (limit, refl, ground (arith, h), tt, refl))
      (λ h. inr (inl (ground (arith, h)), refl))
apply_limit-Outcome limit raise b (some n) =
    if_either {A = Body × Option ℕ} (Outcome (some limit) raise b (some n))
      (raise && ltb 0 limit && ltb n limit) (with_max limit b, some limit) (b, some n)
      (λ h. inl (limit, refl, ground (arith, h), (ground (arith, h), ground (arith, h)), refl))
      (λ h. inr (not_raised-Content limit n raise h, refl))

-- The policy writes the model's limit into `max_tokens`, and answers it, exactly where there is a limit
-- above 0 and the body asks for no number or for a lower one while raising is on; in every other case
-- the body goes on as it came, and the answer is the number that it asks for, if any. What it asks for is
-- the number in `max_tokens`, or where that is missing or null in `max_completion_tokens`, at least 1; a
-- value that cannot be read as a number asks for none.
pub apply_max_tokens_policy-Outcome :
    (limit : Option ℕ) (raise : Bool) (b : Body)
    → Outcome limit raise b (asked b) (apply_max_tokens_policy limit raise b)
unfolding apply_max_tokens_policy
apply_max_tokens_policy-Outcome none raise b = inr (tt, rw (client_n-asked b) refl)
apply_max_tokens_policy-Outcome (some limit) raise b =
    rw (client_n-asked b) (apply_limit-Outcome limit raise b (asked b))

-- Applied to its own body, the policy changes nothing more.
apply_max_tokens_policy-twice :
    (limit : Option ℕ) (raise : Bool) (b : Body)
    → let once = apply_max_tokens_policy limit raise b in
      apply_max_tokens_policy limit raise once.0 ≡ once
unfolding apply_max_tokens_policy apply_limit
apply_max_tokens_policy-twice none raise b = refl
apply_max_tokens_policy-twice (some limit) raise b = elim (Option-cases (client_n b)) [
  | inl e ↦ ground arith
  | inr (n, e) ↦ ground arith
]
