-- ===== src/Users/Accounts.antt =====
-- The accounts of unify_llm/users.py: creation, status, role, password, profile, login, deletion.
pub mod Status
pub mod Passwords
pub mod Login
use unify_llm.Prelude.{
  ℕ, ◌+◌, String, Bool, true, false, ◌&&◌, not, Option, none, some, List, [], ◌∷◌, ◌++◌, ◌==◌,
  if◌then◌else◌, find_first, keep, any_of, length, is_some,
}
use unify_llm.Prelude.Int.{pos}
use unify_llm.Prelude.Text.{str_eq, strip, is_empty}
use unify_llm.Users.Model.{
  Platform, User, Store, Role, Result, ok, err, name_required, email_required, email_exists,
  old_password_required, old_password_wrong, same_password, unknown_user, find_user, update_user,
  has_id, effective_status, is_active, status_to_enabled, check_password_length, normalize_role,
  normalize_status, normalize_display_name, normalize_badge, verify_password, ◌>>=◌,
}
use unify_llm.Users.Model
use unify_llm.Users.Sessions.{delete_sessions_for_user}

-- An empty text counts as none: `(email or "").strip() or None`.
abbrev pub text_or_none : String → Option String
text_or_none t = let v = strip t in if is_empty v then none else some v

abbrev pub has_email : Option String → User → Bool
has_email none u = false
has_email (some e) u = elim u.email [ none ↦ false | some f ↦ str_eq f e ]

-- The row of a new user.
abbrev pub new_user :
    ℕ → String → Option String → String → Option String → Role → Model.Status → ℕ → User
new_user uid name email note pw role status now = record {
  id = uid;
  name = name;
  email = email;
  note = note;
  enabled = status_to_enabled status;
  created_at = now;
  password_hash = pw;
  role = role;
  status = some status;
  display_name = "";
  badge = "";
  points_balance = pos 0;
  points_spent = pos 0;
}

-- The INSERT of `create_user`, which the unique index on `email` may refuse.
unfoldable pub insert_user :
    String
    → Option String
    → String
    → Option String
    → Role
    → Model.Status
    → ℕ
    → Store
    → Result User × Store
insert_user name email note pw role status now s =
    if any_of (has_email email) s.users
    then (err email_exists, s)
    else let row = new_user s.next_user name email note pw role status now in
      (ok row, record s { users = s.users ++ row ∷ []; next_user = s.next_user + 1 })

-- A checked value goes on to the rest of a method; an error leaves the store alone.
abbrev pub checked {ℓ} :
    {A : Type ℓ} {B : Type 0} → Result A → (A → Store → Result B × Store) → Store → Result B × Store
checked (ok a) f s = f a s
checked (err e) f s = (err e, s)

module _ (platform : Platform) where
  open platform use {scrypt}

  -- `if password: _check_password_length(password)`, then its hash; the salt is an argument
  unfoldable pub password_column : String → String → Result (Option String)
  unfolding check_password_length
  password_column password salt =
      if is_empty password
      then ok none
      else check_password_length password >>= λ _. ok (some (scrypt salt password))

  -- `create_user`
  unfoldable pub create_user :
      String → String → String → String → String → String → String → ℕ → Store → Result User × Store
  unfolding insert_user password_column normalize_role normalize_status
  create_user name email note password role status salt now s =
      if is_empty (strip name)
      then (err name_required, s)
      else checked (normalize_role platform role)
          (λ r. checked (normalize_status platform status) (λ st.
            checked (password_column password salt)
              (λ pw. insert_user (strip name) (text_or_none email) (strip note) pw r st now)))
          s

  -- `register_user`
  unfoldable pub register_user : String → String → String → String → ℕ → Store → Result User × Store
  unfolding create_user
  register_user name email password salt now s =
      if is_empty (strip email)
      then (err email_required, s)
      else checked (check_password_length password)
          (λ _. create_user name (strip email) "self-registered" password "user" "pending" salt now)
          s

-- `get_user_by_email`, `get_user_by_name`
abbrev pub has_name : String → User → Bool
has_name name u = str_eq u.name name

unfoldable pub get_user_by_email : String → Store → Option User
get_user_by_email email s = elim (text_or_none email) [
  | none ↦ none
  | some e ↦ find_first (has_email (some e)) s.users
]

unfoldable pub get_user_by_name : String → Store → Option User
get_user_by_name name s = elim (text_or_none name) [
  | none ↦ none
  | some n ↦ find_first (has_name n) s.users
]

-- The row that a login names: by email, or else by name
unfoldable pub login_row : String → Store → Option User
login_row login s = elim (find_first (has_email (some login)) s.users) [
  | none ↦ find_first (has_name login) s.users
  | some u ↦ some u
]

-- An UPDATE of one row, and the row read back; none when there is none.
unfoldable pub update_row : ℕ → (User → User) → Store → Option User × Store
update_row uid f s =
    let users = update_user uid f s.users in (find_user uid users, record s { users = users })

abbrev pub with_status : Model.Status → User → User
with_status st u = record u { status = some st; enabled = status_to_enabled st }

-- `set_status`, on a normalised status
unfoldable pub put_status : ℕ → Model.Status → Store → Option User × Store
unfolding update_row
put_status uid st = update_row uid (with_status st)

abbrev answered : Option User × Store → Result (Option User) × Store
answered (o, s) = (ok o, s)

module _ (platform : Platform) where
  open platform use {scrypt}

  unfoldable pub set_status : ℕ → String → Store → Result (Option User) × Store
  unfolding normalize_status put_status
  set_status uid status =
      checked (normalize_status platform status) (λ st s. answered (put_status uid st s))

  -- `set_role`
  unfoldable pub set_role : ℕ → String → Store → Result (Option User) × Store
  unfolding normalize_role update_row
  set_role uid role =
      checked (normalize_role platform role)
        (λ r s. answered (update_row uid (λ u. record u { role = r }) s))

  -- `set_profile`: none leaves a field alone, the empty text clears it
  unfoldable pub set_profile :
      ℕ → Option String → Option String → Store → Result (Option User) × Store
  unfolding normalize_display_name normalize_badge update_row
  set_profile uid display_name badge = checked (normalize_display_name platform display_name) (λ dn.
      checked (normalize_badge platform badge) (λ bg s. answered (
        update_row uid
          (λ u. record u {
            display_name = elim dn [ none ↦ u.display_name | some v ↦ v ];
            badge = elim bg [ none ↦ u.badge | some v ↦ v ];
          })
          s)))

  abbrev pub with_password : String → User → User
  with_password hash u = record u { password_hash = some hash }

  -- `set_password`
  unfoldable pub set_password : ℕ → String → String → Store → Result (Option User) × Store
  unfolding check_password_length update_row
  set_password uid password salt =
      checked (check_password_length password)
        (λ _ s. answered (update_row uid (with_password (scrypt salt password)) s))

  -- The end of `change_password`, after its UPDATE
  abbrev end_sessions : ℕ → Option String → Option User → Store → Result User × Store
  end_sessions uid kept none s = (err unknown_user, s)
  end_sessions uid kept (some u) s = (ok u, (delete_sessions_for_user platform uid kept s).1)

  -- `change_password`, on the row that it has read
  unfoldable pub change_row :
      ℕ → String → String → String → Option String → User → Store → Result User × Store
  unfolding set_password verify_password delete_sessions_for_user
  change_row uid old new salt kept row s =
      if not (verify_password platform old row.password_hash)
      then (err old_password_wrong, s)
      else if verify_password platform new row.password_hash
      then (err same_password, s)
      else (let (r, s') = set_password uid new salt s in checked r (end_sessions uid kept) s')

  -- `change_password`
  unfoldable pub change_password :
      ℕ → String → String → String → Option String → Store → Result User × Store
  unfolding change_row
  change_password uid old new salt kept s =
      if is_empty old
      then (err old_password_required, s)
      else checked (check_password_length new)
          (λ _ t. elim (find_user uid t.users) [
            | none ↦ (err unknown_user, t)
            | some row ↦ change_row uid old new salt kept row t
          ])
          s

  abbrev pub login_check : String → User → Option User
  login_check password u =
      if verify_password platform password u.password_hash
      then (if is_active (effective_status u) then some u else none)
      else none

  -- `authenticate_password`
  unfoldable pub authenticate_password : String → String → Store → Option User
  unfolding login_row verify_password
  authenticate_password login password s =
      let name = strip login in
      if is_empty name
      then none
      else if is_empty password
      then none
      else elim (login_row name s) [ none ↦ none | some u ↦ login_check password u ]

  -- `password_matches`
  unfoldable pub password_matches : ℕ → String → Store → Bool
  unfolding verify_password
  password_matches uid password s = elim (find_user uid s.users) [
    | none ↦ false
    | some u ↦ verify_password platform password u.password_hash
  ]

-- `delete_user`: the foreign keys take the user's keys, sessions and log along
unfoldable pub delete_user : ℕ → Store → Bool × Store
delete_user uid s = (
  is_some (find_user uid s.users),
  record s {
    users = keep (λ u. not (has_id uid u)) s.users;
    keys = keep (λ k. not (k.user_id == uid)) s.keys;
    sessions = keep (λ r. not (r.user_id == uid)) s.sessions;
    points_log = keep (λ e. not (e.user_id == uid)) s.points_log;
  },
)
