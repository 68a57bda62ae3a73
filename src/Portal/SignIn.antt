-- ===== src/Portal/SignIn.antt =====
-- What a sign-in through `auth_login` (unify_llm/app.py) gives: a session of an active user.
use unify_llm.Prelude.{
  ℕ, ◌+◌, ◌*◌, ◌≤◌, ◌≡◌, refl, ap, sym, ◌∙◌, inl, inr, String, false, ◌||◌, some, Option-cases,
  Bool-cases, arith,
}
use mathlib.Core.Path.{subst}
use unify_llm.Prelude.Clock.{second}
use unify_llm.Prelude.Int.{ℤ, pos}
use unify_llm.Prelude.Text.{strip, is_empty}
use unify_llm.LoginGuard.{check}
use unify_llm.Users.Model.{Platform, User, Store, Result, ok, err}
use unify_llm.Users.Accounts.{authenticate_password, get_user_by_email, get_user_by_name}
use unify_llm.Users.Accounts.Login.{Proved, authenticate_password-Proved}
use unify_llm.Users.Sessions.{Resolved, create_session, open_session, get_session}
use unify_llm.Users.Sessions.Lookup.{create_then_get}
use unify_llm.Portal.{
  Portal, Reply, signed_in, granted_reply, session_ttl, login_attempt, login_allowed, login_refused,
  login_granted, auth_login, is_waiting, or_user,
}

granted_lem :
    (u v : User) (r : Result String) (t : String)
    → granted_reply u r ≡ signed_in v t
    → (u ≡ v) × (r ≡ ok t)
granted_lem u v (ok s) t h = (cc, cc)
granted_lem u v (err e) t h = cc

module _ (platform : Platform) (login password token : String) (now : ℕ) where
  -- The answer and the store come from a new session of this user, who has passed the password check.
  abbrev Granted : User → String → Portal → Reply × Portal → Type 0
  Granted u t p out =
      (authenticate_password platform login password p.users ≡ some u)
      × ((create_session platform u.id (pos session_ttl) token now p.users).0 ≡ ok t)
      × (out.1.users ≡ (create_session platform u.id (pos session_ttl) token now p.users).1)

  login_attempt-Granted :
      (peer : String) (u : User) (t : String) (p : Portal)
      → (login_attempt platform peer login password token now p).0 ≡ signed_in u t
      → Granted u t p (login_attempt platform peer login password token now p)
  unfolding login_attempt login_allowed login_refused login_granted
  login_attempt-Granted peer u t p h =
      let row = or_user (get_user_by_email login p.users) (get_user_by_name login p.users) in
      elim (Bool-cases (check platform.lower peer login now p.guard).0.0) [
        | inr no_more ↦ cc (rw (no_more, login_attempt) at h)
        | inl allowed ↦
            (elim (Option-cases (authenticate_password platform login password p.users)) [
              | inl e ↦ (elim (Bool-cases (is_waiting platform row password p.users)) [
                | inl w ↦ cc (rw (allowed, e, w, login_attempt, login_allowed, login_refused) at h)
                | inr w ↦ cc (rw (allowed, e, w, login_attempt, login_allowed, login_refused) at h)
              ])
              | inr (v, e) ↦
                  let (same, made) =
                    granted_lem v u _ t
                      (rw (allowed, e, login_attempt, login_allowed, login_granted) at h) in
                  subst
                    (λ w. Granted w t p (login_attempt platform peer login password token now p))
                    same
                    (rw (allowed, e, login_attempt, login_allowed, login_granted)
                      (refl, made, refl))
            ])
      ]

drawn :
    (platform : Platform) (uid : ℕ) (ttl : ℤ) (token t : String) (now : ℕ) (s : Store)
    → (create_session platform uid ttl token now s).0 ≡ ok t
    → t ≡ token
unfolding create_session open_session
drawn platform uid ttl token t now s h = ground (arith, h)

-- The session that the cookie opens is the user's, and asking for it changes nothing.
abbrev pub Opens : Platform → User → String → ℕ → Store → Type 0
Opens platform u cookie later s =
    (r : Resolved) × (get_session platform cookie later s ≡ (some r, s)) × (r.user_id ≡ u.id)

Granted-Opens :
    (platform : Platform) (login password token t : String) (now later : ℕ) (p : Portal) (u : User)
    (out : Reply × Portal)
    → Granted platform login password token now u t p out
    → strip token ≡ token
    → is_empty token ≡ false
    → later ≤ now + session_ttl * second
    → Opens platform u t later out.1.users
Granted-Opens platform login password token t now later p u out (known, made, users) clean typed
      soon =
    let same = drawn platform u.id (pos session_ttl) token t now p.users made in
    let (r, found, owner, row) =
      create_then_get platform u.id (pos session_ttl) token now later p.users (made ∙ ap ok same)
        clean typed soon in
    subst (λ s. Opens platform u t later s) (sym users)
      (subst
        (λ c.
          Opens platform u c later
            (create_session platform u.id (pos session_ttl) token now p.users).1)
        (sym same) (r, found, owner))

-- Who is signed in is a row of the store that is active, that has the login, without the spaces around
-- it, as its email or its name, and that has a hash which the password matches; and the cookie that is
-- set opens a session of this user for the seven days that it lasts, if the drawn token is a text that
-- is not empty and has no spaces around it.
pub signed_in-Opens :
    (platform : Platform) (peer login password token t : String) (now later : ℕ) (p : Portal)
    (u : User)
    → (auth_login platform peer login password token now p).0 ≡ signed_in u t
    → strip token ≡ token
    → is_empty token ≡ false
    → later ≤ now + session_ttl * second
    → Proved platform (strip (strip login)) password u p.users
      × Opens platform u t later (auth_login platform peer login password token now p).1.users
unfolding auth_login
signed_in-Opens platform peer login password token t now later p u h clean typed soon =
    elim (Bool-cases (is_empty (strip login) || is_empty password)) [
      | inl blank ↦ cc (rw (blank, auth_login) at h)
      | inr full ↦
          let g =
            login_attempt-Granted platform (strip login) password token now peer u t p
              (rw (full, auth_login) at h) in
          rw (full, auth_login)
            (
              authenticate_password-Proved platform (strip login) password p.users u g.0,
              Granted-Opens platform (strip login) password token t now later p u
                  (login_attempt platform peer (strip login) password token now p) g clean typed
                  soon,
            )
    ]
