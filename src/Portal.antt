-- ===== src/Portal.antt =====
-- The portal's handlers in unify_llm/app.py that sign users up, in and out and serve their own rows:
-- `LoginGuard` and the user store together. The bodies have been read, a text that is missing is empty,
-- and the user store is there.
pub mod Guessing
pub mod OwnKeys
pub mod SignIn
mod Tests
use unify_llm.Prelude.{
  ℕ, ◌+◌, ◌*◌, String, Bool, true, false, ◌&&◌, ◌||◌, not, Option, none, some, List, [], ◌∷◌, ◌==◌,
  if◌then◌else◌, any_of, keep, is_some,
}
use unify_llm.Prelude.Int.{pos}
use unify_llm.Prelude.Text.{strip, is_empty, ◌+str◌}
use unify_llm.LoginGuard.{LoginGuard, check, record_failure, record_success}
use unify_llm.Users.Model.{
  Platform, User, ApiKey, Store, StoreError, integrity, Result, ok, err, effective_status,
  is_active,
}
use unify_llm.Users.Accounts.{
  register_user, authenticate_password, password_matches, get_user_by_email, get_user_by_name,
  change_password, set_profile,
}
use unify_llm.Users.Sessions.{create_session, delete_session}
use unify_llm.Users.Keys.{NewKey, create_api_key, revoke_key}

pub record Portal : Type 0 where
  pub guard : LoginGuard
  pub users : Store

-- What the handlers answer
pub data Reply : Type 0 where
  bad_request pending_approval unauthorized badge_refused unknown_key unknown_id signed_out
        server_error :
      Reply
  refused : StoreError → Reply
  too_many : ℕ → Reply
  registered changed : User → Reply
  signed_in : User → String → Reply
  key_issued : NewKey → Reply
  key_revoked : ApiKey → Reply

-- `except ValueError`; what SQLite raises on a duplicate is not caught.
abbrev pub refusal : StoreError → Reply
refusal integrity = server_error
refusal e = refused e

abbrev pub or_user : Option User → Option User → Option User
or_user none v = v
or_user (some u) v = some u

abbrev pub granted_reply : User → Result String → Reply
granted_reply u (ok token) = signed_in u token
granted_reply u (err e) = server_error

-- `SESSION_TTL_SECONDS`
abbrev pub session_ttl : ℕ
session_ttl = 7 * 24 * 3600

module _ (platform : Platform) where
  open platform use {lower}

  abbrev pub register_account : String → String
  register_account email = "register:" +str lower email

  -- The end of `auth_register`, for one who may try
  unfoldable pub register_allowed :
      String → String → String → String → String → ℕ → Portal → Reply × Portal
  unfolding register_user record_failure
  register_allowed peer name email password salt now p =
      let (r, s) = register_user platform name email password salt now p.users in
      elim r [
        | err e ↦ (
          refusal e,
          record {
            guard = record_failure lower peer (register_account email) now p.guard;
            users = s;
          },
        )
        | ok user ↦ (
          registered user,
          record { guard = record_failure lower peer "__register_ip__" now p.guard; users = s },
        )
      ]

  -- `auth_register`
  unfoldable pub auth_register :
      String → String → String → String → String → ℕ → Portal → Reply × Portal
  unfolding check register_allowed
  auth_register peer name email password salt now p =
      if is_empty (strip name) || is_empty (strip email) || is_empty password
      then (bad_request, p)
      else (let ((allowed, wait), g) =
            check lower peer (register_account (strip email)) now p.guard in
          let p' = record p { guard = g } in
          if allowed
          then register_allowed peer (strip name) (strip email) password salt now p'
          else (too_many wait, p'))

  -- The row is there, is not active, and has this password.
  unfoldable pub is_waiting : Option User → String → Store → Bool
  unfolding password_matches effective_status
  is_waiting none password s = false
  is_waiting (some u) password s =
      not (is_active (effective_status u)) && password_matches platform u.id password s

  -- `auth_login` for credentials that do not sign in
  unfoldable pub login_refused : String → String → String → ℕ → Portal → Reply × Portal
  unfolding is_waiting get_user_by_email get_user_by_name record_failure
  login_refused peer login password now p =
      if is_waiting (or_user (get_user_by_email login p.users) (get_user_by_name login p.users))
        password p.users
      then (pending_approval, p)
      else (unauthorized, record p { guard = record_failure lower peer login now p.guard })

  -- `auth_login` for a user whose credentials are right; an error of the store is not caught.
  unfoldable pub login_granted : String → User → String → ℕ → Portal → Reply × Portal
  unfolding record_success create_session
  login_granted login u token now p =
      let g = record_success lower login p.guard in
      let (r, s) = create_session platform u.id (pos session_ttl) token now p.users in
      (granted_reply u r, record { guard = g; users = s })

  -- `auth_login` for one who may try
  unfoldable pub login_allowed : String → String → String → String → ℕ → Portal → Reply × Portal
  unfolding authenticate_password login_refused login_granted
  login_allowed peer login password token now p =
      elim (authenticate_password platform login password p.users) [
        | none ↦ login_refused peer login password now p
        | some u ↦ login_granted login u token now p
      ]

  -- `auth_login`, on the login without its spaces
  unfoldable pub login_attempt : String → String → String → String → ℕ → Portal → Reply × Portal
  unfolding check login_allowed
  login_attempt peer login password token now p =
      let ((allowed, wait), g) = check lower peer login now p.guard in
      let p' = record p { guard = g } in
      if allowed then login_allowed peer login password token now p' else (too_many wait, p')

  -- `auth_login`
  unfoldable pub auth_login : String → String → String → String → ℕ → Portal → Reply × Portal
  unfolding login_attempt
  auth_login peer login password token now p =
      if is_empty (strip login) || is_empty password
      then (bad_request, p)
      else login_attempt peer (strip login) password token now p

  -- `auth_logout`
  unfoldable pub auth_logout : String → Portal → Reply × Portal
  unfolding delete_session
  auth_logout cookie p =
      if is_empty cookie
      then (signed_out, p)
      else (signed_out, record p { users = (delete_session platform cookie p.users).1 })

  -- `me_create_key`, for the user of the session
  unfoldable pub me_create_key : ℕ → String → String → ℕ → Portal → Reply × Portal
  unfolding create_api_key
  me_create_key uid name hex now p =
      let (r, s) = create_api_key platform uid name hex now p.users in
      (elim r [ ok k ↦ key_issued k | err e ↦ refusal e ], record p { users = s })

  -- `me_change_password`
  unfoldable pub me_change_password :
      ℕ → String → String → String → String → Portal → Reply × Portal
  unfolding change_password
  me_change_password uid old new salt token p =
      if is_empty old || is_empty new
      then (bad_request, p)
      else (let (r, s) = change_password platform uid old new salt (some token) p.users in
          (elim r [ ok u ↦ changed u | err e ↦ refusal e ], record p { users = s }))

  -- `me_patch_profile`: whether the body has a `badge`, and its `display_name` if it has one
  unfoldable pub me_patch_profile : ℕ → Bool → Option String → Portal → Reply × Portal
  unfolding set_profile
  me_patch_profile uid badge display_name p =
      if badge then (badge_refused, p) else elim display_name [
        | none ↦ (bad_request, p)
        | some name ↦
            (let (r, s) = set_profile platform uid (some name) none p.users in
              (
                elim r [
                  | err e ↦ refusal e
                  | ok o ↦ (elim o [ none ↦ unknown_id | some u ↦ changed u ])
                ],
                record p { users = s },
              ))
      ]

-- `list_keys_for_user`, in the order of the ids
abbrev pub keys_of : ℕ → Store → List ApiKey
keys_of uid s = keep (λ k. k.user_id == uid) s.keys

-- `me_revoke_key`
unfoldable pub me_revoke_key : ℕ → ℕ → ℕ → Portal → Reply × Portal
unfolding revoke_key
me_revoke_key uid kid now p =
    if any_of (λ k. k.id == kid) (keys_of uid p.users)
    then (let (o, s) = revoke_key kid now p.users in
        (elim o [ none ↦ unknown_key | some k ↦ key_revoked k ], record p { users = s }))
    else (unknown_key, p)
