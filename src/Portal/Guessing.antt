-- ===== src/Portal/Guessing.antt =====
-- Guessing a password through `auth_login` (unify_llm/app.py), the guard and the user store together.
use unify_llm.Prelude.{
  All-append, if◌then◌else◌, ◌++◌, ◌||◌, All, ℕ, ◌+◌, ◌≤◌, ◌<◌, ◌≡◌, refl, ap, sym, ◌∙◌, ◌⊎◌, inl,
  inr, String, Bool, true, false, List, [], ◌∷◌, Option-cases, Bool-cases, arith,
}
use unify_llm.Prelude.Text.{strip, is_empty}
use unify_llm.LoginGuard.{LoginGuard, check, record_failure}
use unify_llm.LoginGuard.Lockout.{is_account}
use unify_llm.LoginGuard.Histories.{
  Call, failure, success, checking, call, calls, calls-append, failures, failures-append, Fits,
  guessing_denied,
}
use unify_llm.Users.Model.{Platform, User, Result, ok, err}
use unify_llm.Users.Accounts.{authenticate_password, get_user_by_email, get_user_by_name}
use unify_llm.Portal.{
  Portal, Reply, granted_reply, unauthorized, too_many, login_attempt, login_allowed, login_refused,
  login_granted, auth_login, is_waiting, or_user,
}

granted_lem : (u : User) (r : Result String) → granted_reply u r ≡ unauthorized → ⊥
granted_lem u (ok token) h = cc
granted_lem u (err e) h = cc

-- One try to sign in: from an address, with a password, at a time; `token` is what would be drawn.
pub record Attempt : Type 0 where
  pub peer : String
  pub password : String
  pub token : String
  pub at : ℕ

abbrev pub is_too_many : Reply → Bool
is_too_many (too_many w) = true
is_too_many _ = false

module _ (platform : Platform) where
  open platform use {lower}

  -- A login that is answered by 401 counts as a failure, after the check.
  unauthorized-guard :
      (peer login password token : String) (t : ℕ) (p : Portal)
      → (login_attempt platform peer login password token t p).0 ≡ unauthorized
      → (login_attempt platform peer login password token t p).1.guard
        ≡ record_failure lower peer login t (check lower peer login t p.guard).1
  unfolding login_attempt login_allowed login_refused login_granted
  unauthorized-guard peer login password token t p h =
      let row = or_user (get_user_by_email login p.users) (get_user_by_name login p.users) in
      elim (Bool-cases (check lower peer login t p.guard).0.0) [
        | inr no_more ↦ cc (rw (no_more, login_attempt) at h)
        | inl allowed ↦
            (elim (Option-cases (authenticate_password platform login password p.users)) [
              | inr (u, e) ↦
                  elim (granted_lem u _
                    (rw (allowed, e, login_attempt, login_allowed, login_granted) at h)) [ ]
              | inl e ↦ (elim (Bool-cases (is_waiting platform row password p.users)) [
                | inl w ↦ cc (rw (allowed, e, w, login_attempt, login_allowed, login_refused) at h)
                | inr w ↦ rw (allowed, e, w, login_attempt, login_allowed, login_refused) refl
              ])
            ])
      ]

  abbrev pub try_login : String → Attempt → Portal → Reply × Portal
  try_login login a p = auth_login platform a.peer login a.password a.token a.at p

  typed_login :
      (login : String) (a : Attempt) (p : Portal)
      → is_empty (strip login) ≡ false
      → is_empty a.password ≡ false
      → try_login login a p ≡ login_attempt platform a.peer (strip login) a.password a.token a.at p
  unfolding auth_login
  typed_login login a p given typed = rw (given, typed, auth_login) refl

  failed-guard :
      (login : String) (a : Attempt) (p : Portal)
      → is_empty (strip login) ≡ false
      → (try_login login a p).0 ≡ unauthorized
      → (try_login login a p).1.guard
        ≡ record_failure lower a.peer
            (strip login)
            a.at
            (check lower a.peer (strip login) a.at p.guard).1
  unfolding auth_login
  failed-guard login a p given h = elim (Bool-cases (is_empty a.password)) [
    | inl blank ↦ cc (rw (given, blank, auth_login) at h)
    | inr typed ↦
        let opens = typed_login login a p given typed in
        rw (opens)
          (unauthorized-guard a.peer (strip login) a.password a.token a.at p (rw (opens) at h))
  ]

  -- Tries one after the other, each with its login text
  unfoldable pub after : List (String × Attempt) → Portal → Portal
  after [] p = p
  after ((login, a) ∷ l) p = after l (try_login login a p).1

  -- One for a login text of the account
  abbrev of_account : String → String → ℕ
  of_account account login = if is_account lower account (strip login) then 1 else 0

  abbrev pub tries : String → List (String × Attempt) → ℕ
  tries account [] = 0
  tries account ((login, a) ∷ l) = of_account account login + tries account l

  module _ (account : String) (now : ℕ) where
    -- No try is after `now`; one with a login text of the account is in the window and is answered by
    -- 401, one with another text may have any answer.
    unfoldable pub Failing : ℕ → List (String × Attempt) → Portal → Type 0
    Failing window [] p = Unit
    Failing window ((login, a) ∷ l) p =
        (a.at ≤ now)
        × ((is_account lower account (strip login) ≡ false)
            ⊎ ((now ≤ a.at + window) × ((try_login login a p).0 ≡ unauthorized)))
        × Failing window l (try_login login a p).1

    -- The guard `h` comes from `g` by calls of its own that fit, with at least `n` failures of the
    -- account.
    abbrev Traced : ℕ → ℕ → LoginGuard → LoginGuard → Type 0
    Traced window n g h =
        (ks : List Call) × (h ≡ calls lower ks g)
        × All (Fits lower account now window) ks
        × (n ≤ failures lower account ks)

    -- A try with another login text: its calls are a check, and a failure or a success of that text.
    other-Traced :
        (window : ℕ) (login : String) (a : Attempt) (p : Portal)
        → a.at ≤ now
        → is_account lower account (strip login) ≡ false
        → Traced window 0 p.guard (try_login login a p).1.guard
    unfolding auth_login login_attempt login_allowed login_refused login_granted calls call
    other-Traced window login a p past differs =
        let b = strip login in
        let row = or_user (get_user_by_email b p.users) (get_user_by_name b p.users) in
        let look = checking a.peer b a.at in
        elim (Bool-cases (is_empty b || is_empty a.password)) [
          | inl blank ↦ ([], rw (blank, auth_login) refl, tt, omega arith)
          | inr full ↦ (elim (Bool-cases (check lower a.peer b a.at p.guard).0.0) [
            | inr no_more ↦ (
              look ∷ [],
              rw (full, no_more, auth_login, login_attempt) refl,
              (past, tt),
              omega arith,
            )
            | inl allowed ↦
                (elim (Option-cases (authenticate_password platform b a.password p.users)) [
                  | inr (u, e) ↦ (
                    look ∷ success b ∷ [],
                    rw (full, allowed, e, auth_login, login_attempt, login_allowed, login_granted)
                        refl,
                    (past, (differs, tt)),
                    omega arith,
                  )
                  | inl e ↦ (elim (Bool-cases (is_waiting platform row a.password p.users)) [
                    | inl w ↦ (
                      look ∷ [],
                      rw
                          (
                            full, allowed, e, w, auth_login, login_attempt, login_allowed,
                            login_refused,
                          )
                          refl,
                      (past, tt),
                      omega arith,
                    )
                    | inr w ↦ (
                      look ∷ failure a.peer b a.at ∷ [],
                      rw
                          (
                            full, allowed, e, w, auth_login, login_attempt, login_allowed,
                            login_refused,
                          )
                          refl,
                      (past, ((past, inl differs), tt)),
                      omega arith,
                    )
                  ])
                ])
          ])
        ]

    -- A try that is answered by 401: its calls are a check and a failure.
    failed-Traced :
        (window : ℕ) (login : String) (a : Attempt) (p : Portal)
        → a.at ≤ now
        → now ≤ a.at + window
        → (try_login login a p).0 ≡ unauthorized
        → Traced window (of_account account login) p.guard (try_login login a p).1.guard
    unfolding auth_login calls call
    failed-Traced window login a p past fresh h = elim (Bool-cases (is_empty (strip login))) [
      | inl blank ↦ cc (rw (blank, auth_login) at h)
      | inr given ↦ (
        checking a.peer (strip login) a.at ∷ failure a.peer (strip login) a.at ∷ [],
        failed-guard login a p given h,
        (past, ((past, inr fresh), tt)),
        omega arith,
      )
    ]

    tries-Traced :
        (window : ℕ) (l : List (String × Attempt)) (p : Portal)
        → Failing window l p
        → Traced window (tries account l) p.guard (after l p).guard
    unfolding Failing after calls
    tries-Traced window [] p failing = ([], refl, tt, omega arith)
    tries-Traced window ((login, a) ∷ l) p (past, how, failing) =
        let once : Traced window (of_account account login) p.guard (try_login login a p).1.guard =
          elim how [
            | inl differs ↦ rw differs (other-Traced window login a p past differs)
            | inr (fresh, refused) ↦ failed-Traced window login a p past fresh refused
          ] in
        let (ks, e, fits, many) = once in
        let (ls, f, rest, more) = tries-Traced window l (try_login login a p).1 failing in
        (
          ks ++ ls,
          f ∙ ap (calls lower ls) e ∙ sym (calls-append lower ks ls p.guard),
          All-append (Fits lower account now window) ks ls fits rest,
          omega (arith, many, more, failures-append lower account ks ls),
        )

  -- With a limit of failures for each account: after a history of tries to sign in and nothing else, up
  -- to now, with any login texts and from any addresses, of which those with this login text, up to case
  -- and the spaces around it, are in the window, are each answered by 401 and reach the limit, the next
  -- try with this text is answered by 429, from every address and with any password that is not empty,
  -- the right one included, whatever the guard had before. A success with this text among the tries is
  -- excluded; tries with other texts may have any answer.
  pub guessing_stopped :
      (login : String) (l : List (String × Attempt)) (last : Attempt) (p : Portal)
      → is_empty (strip login) ≡ false
      → is_empty last.password ≡ false
      → 0 < p.guard.max_per_account
      → p.guard.max_per_account ≤ tries (strip login) l
      → Failing (strip login) last.at p.guard.window l p
      → is_too_many (try_login login last (after l p)).0 ≡ true
  unfolding login_attempt
  guessing_stopped login l last p given typed on few failing =
      let (ks, e, fits, many) = tries-Traced (strip login) last.at p.guard.window l p failing in
      let denied : (check lower last.peer (strip login) last.at (after l p).guard).0.0 ≡ false =
        rw e (
          guessing_denied lower (strip login) last.peer last.at ks p.guard given on
            (omega (arith, few, many)) fits) in
      rw (typed_login login last (after l p) given typed, denied, login_attempt) refl
