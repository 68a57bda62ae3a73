-- ===== src/LoginGuard/Tests.antt =====
-- Failed logins under `LoginGuard` of unify_llm/app.py.
use unify_llm.Prelude.{◌*◌, ◌≡◌, refl, false, List, [], ◌∷◌, arith, inr}
use unify_llm.Prelude.Clock.{second}
use unify_llm.LoginGuard.{LoginGuard, login_guard, update_config, check}
use unify_llm.LoginGuard.Histories.{Call, failure, success, checking, calls, guessing_denied}

abbrev guard : LoginGuard
unfolding login_guard update_config
guard = login_guard (record {
  max_failures_per_ip = 0;
  max_failures_per_account = 2;
  window = 60 * second;
  lockout = 30 * second;
})

-- Two failures of one account, with those of another and its success in between
abbrev history : List Call
history =
    checking "10.0.0.7" "ann" (3 * second)
    ∷ failure "10.0.0.7" "ann" (3 * second)
    ∷ failure "10.0.0.7" "bob" (4 * second)
    ∷ success "bob"
    ∷ failure "10.0.0.8" "ann" (5 * second)
    ∷ []

guessing_denied_example :
    (check (λ s. s) "10.0.0.9" "ann" (60 * second) (calls (λ s. s) history guard)).0.0 ≡ false
unfolding login_guard update_config
guessing_denied_example =
    guessing_denied (λ s. s) "ann" "10.0.0.9" (60 * second) history guard refl (omega arith)
      (omega arith)
      (
        omega arith,
        (
          (omega arith, inr (omega arith)),
          ((omega arith, inr (omega arith)), (refl, ((omega arith, inr (omega arith)), tt))),
        ),
      )
