-- ===== src/Users/Model.antt =====
-- The tables of unify_llm/users.py, its errors, and the functions that read and check one row.
use unify_llm.Prelude.{
  ℕ, String, Bool, true, false, ◌||◌, Option, none, some, List, [], ◌∷◌, ltb, ◌==◌, if◌then◌else◌,
  find_first,
}
use unify_llm.Prelude.Int.{ℤ}
use unify_llm.Prelude.Text.{str_eq, strip, is_empty, count_chars}

-- What the program calls and does not define: the Unicode lower case, SHA-256, and the password hash
-- with its check. A salt makes each password hash a new one.
pub record Platform : Type 0 where
  pub lower : String → String
  pub sha256 : String → String
  pub scrypt : String → String → String
  pub scrypt_matches : String → String → Bool

pub data Role : Type 0 where
  admin user : Role

pub data Status : Type 0 where
  pending active disabled : Status

-- The messages of `ValueError`, and SQLite's refusal of a duplicate that nothing catches.
pub data StoreError : Type 0 where
  name_required email_required email_exists bad_role bad_status : StoreError
  password_short password_long old_password_required old_password_wrong same_password : StoreError
  unknown_user not_active bad_balance long_name long_badge revoked integrity : StoreError

pub data Result {ℓ} (A : Type ℓ) : Type ℓ where
  ok : A → Result A
  err : StoreError → Result A

infixl 5 ◌>>=◌
abbrev pub ◌>>=◌ {ℓ κ} : {A : Type ℓ} {B : Type κ} → Result A → (A → Result B) → Result B
ok a >>= f = f a
err e >>= f = err e

-- A row of `users`; a status that is NULL is one from before the column was there.
pub record User : Type 0 where
  pub id : ℕ
  pub name : String
  pub email : Option String
  pub note : String
  pub enabled : Bool
  pub created_at : ℕ
  pub password_hash : Option String
  pub role : Role
  pub status : Option Status
  pub display_name : String
  pub badge : String
  pub points_balance : ℤ
  pub points_spent : ℤ

pub record ApiKey : Type 0 where
  pub id : ℕ
  pub user_id : ℕ
  pub key_hash : String
  pub key_prefix : String
  pub name : String
  pub enabled : Bool
  pub created_at : ℕ
  pub last_used_at : Option ℕ
  pub revoked_at : Option ℕ

pub record Session : Type 0 where
  pub token : String
  pub user_id : ℕ
  pub created_at : ℕ
  pub expires_at : ℕ

pub data Kind : Type 0 where
  adjust deduct : Kind

pub record PointsEntry : Type 0 where
  pub user_id : ℕ
  pub delta : ℤ
  pub balance_after : ℤ
  pub kind : Kind
  pub note : String
  pub prompt_tokens : ℕ
  pub completion_tokens : ℕ
  pub created_at : ℕ

-- The database. AUTOINCREMENT never gives an id a second time; the log is in the order of its ids.
pub record Store : Type 0 where
  pub users : List User
  pub next_user : ℕ
  pub keys : List ApiKey
  pub next_key : ℕ
  pub sessions : List Session
  pub points_log : List PointsEntry
  pub touched : List (ℕ × ℕ)

abbrev pub empty : Store
empty = record {
  users = [];
  next_user = 1;
  keys = [];
  next_key = 1;
  sessions = [];
  points_log = [];
  touched = [];
}

-- The status that a row counts as, as `_row_user` reads it.
unfoldable pub effective_status : User → Status
effective_status u = elim u.status [ some s ↦ s | none ↦ if u.enabled then active else disabled ]

abbrev pub is_active : Status → Bool
is_active active = true
is_active _ = false

-- `_status_to_enabled`
abbrev pub status_to_enabled : Status → Bool
status_to_enabled = is_active

-- `SELECT * FROM users WHERE id=?`
abbrev pub has_id : ℕ → User → Bool
has_id uid u = u.id == uid

unfoldable pub find_user : ℕ → List User → Option User
find_user uid users = find_first (has_id uid) users

-- `UPDATE users SET … WHERE id=?`
unfoldable pub update_user : ℕ → (User → User) → List User → List User
update_user uid f [] = []
update_user uid f (u ∷ users) = (if has_id uid u then f u else u) ∷ update_user uid f users

-- `_check_password_length`
unfoldable pub check_password_length : String → Result (Unit {0})
check_password_length password =
    if ltb (count_chars password) 10
    then err password_short
    else if ltb 128 (count_chars password)
    then err password_long
    else ok tt

module _ (platform : Platform) where
  open platform use {lower, sha256, scrypt, scrypt_matches}

  -- `_normalize_role`
  unfoldable pub normalize_role : String → Result Role
  normalize_role role =
      let r = lower (strip (if is_empty role then "user" else role)) in
      if str_eq r "admin" then ok admin else if str_eq r "user" then ok user else err bad_role

  -- `_normalize_status`
  unfoldable pub normalize_status : String → Result Status
  normalize_status status =
      let s = lower (strip (if is_empty status then "active" else status)) in
      if str_eq s "pending"
      then ok pending
      else if str_eq s "active"
      then ok active
      else if str_eq s "disabled"
      then ok disabled
      else err bad_status

  -- `_normalize_display_name`
  unfoldable pub normalize_display_name : Option String → Result (Option String)
  normalize_display_name none = ok none
  normalize_display_name (some value) =
      let v = strip value in if ltb 64 (count_chars v) then err long_name else ok (some v)

  -- `_normalize_badge`
  unfoldable pub normalize_badge : Option String → Result (Option String)
  normalize_badge none = ok none
  normalize_badge (some value) =
      let v = lower (strip value) in if ltb 16 (count_chars v) then err long_badge else ok (some v)

  -- The guard of `verify_password`; the rest of it is the platform's check.
  unfoldable pub verify_password : String → Option String → Bool
  verify_password password none = false
  verify_password password (some stored) =
      if is_empty password || is_empty stored then false else scrypt_matches password stored
