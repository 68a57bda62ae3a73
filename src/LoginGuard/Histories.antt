-- ===== src/LoginGuard/Histories.antt =====
-- Histories of the calls of `LoginGuard` (unify_llm/app.py), for many accounts.
use unify_llm.Prelude.{
  ℕ, ◌+◌, ◌≤◌, ◌<◌, ◌≡◌, refl, sym, ◌⊎◌, inl, inr, String, false, List, [], ◌∷◌, All, Bool-cases,
  ◌++◌, append-nil, arith, if◌then◌else◌,
}
use unify_llm.Prelude.Text.{is_empty}
use unify_llm.LoginGuard.{LoginGuard, check, record_failure, record_success}
use unify_llm.LoginGuard.Lockout.{
  queue, Recent, is_account, same-Recent, record_failure-keeps, record_failure-other,
  record_failure-Recent, record_success-other, check_denies,
}
use unify_llm.LoginGuard.Checks.{check-Checked, check-Recent}

-- A call: a failure from an address for an account at a time, a success for an account, or a check.
pub data Call : Type 0 where
  failure : String → String → ℕ → Call
  success : String → Call
  checking : String → String → ℕ → Call

module _ (lower : String → String) where
  unfoldable pub call : Call → LoginGuard → LoginGuard
  call (failure ip a t) g = record_failure lower ip a t g
  call (success a) g = record_success lower a g
  call (checking ip a t) g = (check lower ip a t g).1

  unfoldable pub calls : List Call → LoginGuard → LoginGuard
  unfolding call
  calls [] g = g
  calls (k ∷ ks) g = calls ks (call k g)

  pub calls-append :
      (ks ls : List Call) (g : LoginGuard) → calls (ks ++ ls) g ≡ calls ls (calls ks g)
  unfolding calls
  calls-append [] ls g = refl
  calls-append (k ∷ ks) ls g = calls-append ks ls (call k g)

  module _ (account : String) where
    -- One for a failure of the account
    abbrev counted : Call → ℕ
    counted (failure ip a t) = if is_account lower account a then 1 else 0
    counted (success a) = 0
    counted (checking ip a t) = 0

    abbrev pub failures : List Call → ℕ
    failures [] = 0
    failures (k ∷ ks) = counted k + failures ks

    pub failures-append : (ks ls : List Call) → failures (ks ++ ls) ≡ failures ks + failures ls
    failures-append [] ls = omega arith
    failures-append (k ∷ ks) ls = omega (arith, failures-append ks ls)

    -- The call is not after `now`; a failure of the account is in its window, and a success is of
    -- another account.
    abbrev pub Fits : ℕ → ℕ → Call → Type 0
    Fits now window (failure ip a t) =
        (t ≤ now) × ((is_account lower account a ≡ false) ⊎ (now ≤ t + window))
    Fits now window (success a) = is_account lower account a ≡ false
    Fits now window (checking ip a t) = t ≤ now

  module _ (account : String) (given : is_empty account ≡ false) (now : ℕ) where
    call-keeps :
        (k : Call) (g : LoginGuard)
        → Fits account now g.window k
        → ((call k g).window ≡ g.window) × ((call k g).max_per_account ≡ g.max_per_account)
    unfolding call
    call-keeps (failure ip a t) g fits = record_failure-keeps lower account given now ip a t g
    call-keeps (success a) g fits =
        let same = record_success-other lower account given now a g fits in (same.1, same.2)
    call-keeps (checking ip a t) g fits =
        let same = check-Checked lower account given now t a ip g in (same.0, same.1)

    failure-Recent :
        (ip a : String) (t n : ℕ) (g : LoginGuard)
        → 0 < g.max_per_account
        → Fits account now g.window (failure ip a t)
        → Recent lower account given now n g
        → Recent lower account given now
            (n + counted account (failure ip a t))
            (record_failure lower ip a t g)
    failure-Recent ip a t n g on (past, inl differs) recent = rw differs (
        same-Recent lower account given now (n + 0) n g (record_failure lower ip a t g)
          (omega arith) (record_failure-other lower account given now ip a t g differs)
          (record_failure-keeps lower account given now ip a t g).0 recent)
    failure-Recent ip a t n g on (past, inr fresh) recent =
        elim (Bool-cases (is_account lower account a)) [
          | inl ours ↦
              rw ours
                (record_failure-Recent lower account given now ip a t n g ours on past fresh recent)
          | inr differs ↦ rw differs (
              same-Recent lower account given now (n + 0) n g (record_failure lower ip a t g)
                (omega arith) (record_failure-other lower account given now ip a t g differs)
                (record_failure-keeps lower account given now ip a t g).0 recent)
        ]

    call-Recent :
        (k : Call) (n : ℕ) (g : LoginGuard)
        → 0 < g.max_per_account
        → Fits account now g.window k
        → Recent lower account given now n g
        → Recent lower account given now (n + counted account k) (call k g)
    unfolding call
    call-Recent (failure ip a t) n g on fits recent = failure-Recent ip a t n g on fits recent
    call-Recent (success a) n g on fits recent =
        let same = record_success-other lower account given now a g fits in
        same-Recent lower account given now (n + 0) n g (record_success lower a g) (omega arith)
          same.0 same.1 recent
    call-Recent (checking ip a t) n g on fits recent =
        let h = (check lower ip a t g).1 in
        same-Recent lower account given now (n + 0) n h h (omega arith) refl refl
          (check-Recent lower account given now t a ip n g fits recent)

    calls_denied :
        (ip : String) (n : ℕ) (ks : List Call) (g : LoginGuard)
        → 0 < g.max_per_account
        → g.max_per_account ≤ n + failures account ks
        → All (Fits account now g.window) ks
        → Recent lower account given now n g
        → (check lower ip account now (calls ks g)).0.0 ≡ false
    unfolding calls
    calls_denied ip n [] g on few fits recent =
        check_denies lower account given now ip n g on (omega (arith, few)) recent
    calls_denied ip n (k ∷ ks) g on few fits recent =
        let same = call-keeps k g fits.0 in
        calls_denied ip (n + counted account k) ks (call k g) (omega (arith, on, same.1))
          (omega (arith, few, same.1)) (rw same.0 fits.1) (call-Recent k n g on fits.0 recent)

-- With a limit of failures for each account: after any failures, successes and checks up to now, for any
-- accounts and from any addresses, of which the failures of this account are in the window and reach the
-- limit, with no success of this account among them, a check of the account is refused from every
-- address, whatever the guard had before. A text that is the account's but for upper and lower case is
-- the same account.
pub guessing_denied :
    (lower : String → String) (account ip : String) (now : ℕ) (ks : List Call) (g : LoginGuard)
    → is_empty account ≡ false
    → 0 < g.max_per_account
    → g.max_per_account ≤ failures lower account ks
    → All (Fits lower account now g.window) ks
    → (check lower ip account now (calls lower ks g)).0.0 ≡ false
guessing_denied lower account ip now ks g given on few fits =
    calls_denied lower account given now ip 0 ks g on (omega (arith, few)) fits
      (queue lower account given now g, [], sym (append-nil _), omega arith, tt)
