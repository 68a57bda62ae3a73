-- ===== src/Users/Accounts/Status.antt =====
-- A user of unify_llm/users.py who is not active has no way in: no key, no session, no password.
use unify_llm.Prelude.{
  ℕ, ◌≡◌, ◌≢◌, ◌∙◌, sym, ap, String, true, some, List, [], ◌∷◌, arith, All, find_first,
  All-find_first, Option-cases, Bool-cases, inl, inr,
}
use unify_llm.Prelude.Text.{strip, is_empty}
use unify_llm.Users.Model
use unify_llm.Users.Model.{
  Platform, User, Store, active, is_active, find_user, update_user, effective_status,
  verify_password,
}
use unify_llm.Users.Rows.{find_user-id, All-find_user}
use unify_llm.Users.Keys.{KeyOwner, authenticate_key}
use unify_llm.Users.Keys.Revocation.{authenticate_key_lem}
use unify_llm.Users.Sessions.{Resolved, get_session}
use unify_llm.Users.Sessions.Lookup.{get_session_lem}
use unify_llm.Users.Accounts.{
  with_status, put_status, has_email, has_name, login_row, login_check, authenticate_password,
}

-- The row of this user is not active.
abbrev Out : ℕ → User → Type 0
Out uid u = u.id ≡ uid → effective_status u ≢ active

put_status-Out :
    (uid : ℕ) (st : Model.Status) (users : List User)
    → st ≢ active
    → All (Out uid) (update_user uid (with_status st) users)
unfolding update_user effective_status
put_status-Out uid st [] h = tt
put_status-Out uid st (u ∷ users) h = (λ e. ground arith, put_status-Out uid st users h)

found-Out :
    (uid j : ℕ) (users : List User) (u : User)
    → All (Out uid) users
    → find_user j users ≡ some u
    → j ≡ uid
    → effective_status u ≢ active
found-Out uid j users u out found same =
    All-find_user (Out uid) j users u out found (find_user-id j users u found ∙ same)

login_row-Out :
    (uid : ℕ) (login : String) (s : Store) (u : User)
    → All (Out uid) s.users
    → login_row login s ≡ some u
    → Out uid u
unfolding login_row
login_row-Out uid login s u h e =
    elim (Option-cases (find_first (has_email (some login)) s.users)) [
      | inl no_mail ↦
          All-find_first (Out uid) (has_name login) s.users u h (rw (no_mail, login_row) at e)
      | inr (v, mail) ↦
          All-find_first (Out uid) (has_email (some login)) s.users u h
            (mail ∙ rw (mail, login_row) at e)
    ]

login_check_lem :
    (platform : Platform) (password : String) (v u : User)
    → login_check platform password v ≡ some u
    → (v ≡ u)
      × (verify_password platform password u.password_hash ≡ true)
      × (effective_status u ≡ active)
unfolding effective_status
login_check_lem platform password v u e = ground arith

-- A login that is accepted is of a user whose row is active.
authenticate_password_lem :
    (platform : Platform) (login password : String) (s : Store) (u : User)
    → authenticate_password platform login password s ≡ some u
    → (login_row (strip login) s ≡ some u)
      × (verify_password platform password u.password_hash ≡ true)
      × (effective_status u ≡ active)
unfolding authenticate_password effective_status
authenticate_password_lem platform login password s u e =
    elim (Bool-cases (is_empty (strip login))) [
      | inl blank ↦ cc (rw (blank, authenticate_password) at e)
      | inr text ↦ elim (Bool-cases (is_empty password)) [
        | inl blank ↦ cc (rw (text, blank, authenticate_password) at e)
        | inr secret ↦ elim (Option-cases (login_row (strip login) s)) [
          | inl gone ↦ cc (rw (text, secret, gone, authenticate_password) at e)
          | inr (v, row) ↦
              (let c =
                  login_check_lem platform password v u
                    (rw (text, secret, row, authenticate_password) at e) in
                (row ∙ ap some c.0, c.1, c.2))
        ]
      ]
    ]

-- After a status other than active is set, no key, no cookie and no password gets the user in.
pub locked_out :
    (platform : Platform) (uid : ℕ) (st : Model.Status) (s : Store)
    → st ≢ active
    → let s' = (put_status uid st s).1 in
      ((raw : String) (found : KeyOwner)
        → authenticate_key platform raw s' ≡ some found
        → found.key.user_id ≢ uid)
      × ((token : String) (now : ℕ) (r : Resolved)
          → (get_session platform token now s').0 ≡ some r
          → r.user_id ≢ uid)
      × ((login password : String) (u : User)
          → authenticate_password platform login password s' ≡ some u
          → u.id ≢ uid)
unfolding put_status
locked_out platform uid st s h =
    let s' : Store = (put_status uid st s).1 in
    let out : All (Out uid) s'.users = put_status-Out uid st s.users h in
    (
      λ raw found e same.
          let rows = authenticate_key_lem platform raw s' found e in
          found-Out uid found.key.user_id s'.users found.owner out rows.1 same rows.4,
      λ token now r e same.
          let (row, _, _, owner, found, status, _) = get_session_lem platform token now s' r e in
          found-Out uid row.user_id s'.users r.user out found (sym owner ∙ same) status,
      λ login password u e same.
          let (row, _, status) = authenticate_password_lem platform login password s' u e in
          login_row-Out uid (strip login) s' u out row same status,
    )
