-- ===== src/Users/Sessions.antt =====
-- The sessions of unify_llm/users.py. The random token that `secrets` draws and the time are arguments.
pub mod Lookup
use unify_llm.Prelude.{
  ℕ, ◌+◌, ◌*◌, max, String, Bool, true, false, ◌&&◌, not, Option, none, some, List, [], ◌∷◌, ◌++◌,
  ltb, ◌==◌, if◌then◌else◌, find_first, keep, any_of, length, count_if,
}
use unify_llm.Prelude.Int.{ℤ, pos_part}
use unify_llm.Prelude.Clock.{second}
use unify_llm.Prelude.Text.{str_eq, strip, is_empty}
use unify_llm.Users.Model.{
  Platform, User, Session, Store, Status, Result, ok, err, unknown_user, not_active, integrity,
  find_user, effective_status, is_active,
}

-- What `get_session` answers.
pub record Resolved : Type 0 where
  pub token : String
  pub user_id : ℕ
  pub user : User
  pub expires_at : ℕ
  pub created_at : ℕ

-- `SELECT * FROM sessions WHERE token=?`
abbrev pub has_token : String → Session → Bool
has_token token row = str_eq row.token token

unfoldable pub find_session : String → List Session → Option Session
find_session token rows = find_first (has_token token) rows

-- `DELETE FROM sessions WHERE token=?`
unfoldable pub drop_token : String → List Session → List Session
drop_token token rows = keep (λ row. not (has_token token row)) rows

-- The row that the INSERT of `create_session` makes.
abbrev pub new_session : String → ℕ → ℤ → ℕ → Session
new_session digest uid ttl now = record {
  token = digest;
  user_id = uid;
  created_at = now;
  expires_at = now + max 60 (pos_part ttl) * second;
}

module _ (platform : Platform) where
  open platform use {sha256}

  -- `create_session`, on the row that `get_user` has found
  unfoldable pub open_session : ℕ → ℤ → String → ℕ → User → Store → Result String × Store
  open_session uid ttl token now user s =
      if is_active (effective_status user)
      then (if any_of (has_token (sha256 token)) s.sessions then (err integrity, s) else (
        ok token,
        record s { sessions = s.sessions ++ new_session (sha256 token) uid ttl now ∷ [] },
      ))
      else (err not_active, s)

  unfoldable pub create_session : ℕ → ℤ → String → ℕ → Store → Result String × Store
  unfolding open_session
  create_session uid ttl token now s = elim (find_user uid s.users) [
    | none ↦ (err unknown_user, s)
    | some user ↦ open_session uid ttl token now user s
  ]

  -- `delete_session`: whether a row went, and what is left
  unfoldable pub delete_session : String → Store → Bool × Store
  unfolding drop_token
  delete_session token s =
      let tok = strip token in
      if is_empty tok then (false, s) else (
        any_of (has_token (sha256 tok)) s.sessions,
        record s { sessions = drop_token (sha256 tok) s.sessions },
      )

  -- The end of `get_session`, on the session's row and on its user's
  unfoldable pub resolve_user : String → Session → Option User → Store → Option Resolved × Store
  unfolding delete_session
  resolve_user tok row none s = (none, s)
  resolve_user tok row (some user) s =
      if is_active (effective_status user)
      then (
        some (record {
          token = tok;
          user_id = row.user_id;
          user = user;
          expires_at = row.expires_at;
          created_at = row.created_at;
        }),
        s,
      )
      else (none, (delete_session tok s).1)

  unfoldable pub resolve_row : String → ℕ → Option Session → Store → Option Resolved × Store
  unfolding resolve_user drop_token
  resolve_row tok now none s = (none, s)
  resolve_row tok now (some row) s =
      if ltb row.expires_at now
      then (none, record s { sessions = drop_token (sha256 tok) s.sessions })
      else resolve_user tok row (find_user row.user_id s.users) s

  -- `get_session`
  unfoldable pub get_session : String → ℕ → Store → Option Resolved × Store
  unfolding resolve_row find_session
  get_session token now s =
      let tok = strip token in
      if is_empty tok
      then (none, s)
      else resolve_row tok now (find_session (sha256 tok) s.sessions) s

  -- The rows that `delete_sessions_for_user` deletes.
  abbrev pub revoked_by : ℕ → Option String → Session → Bool
  revoked_by uid none row = row.user_id == uid
  revoked_by uid (some kept) row =
      if is_empty kept
      then row.user_id == uid
      else (row.user_id == uid) && not (str_eq row.token (sha256 kept))

  -- `delete_sessions_for_user`: how many rows went, and what is left
  unfoldable pub delete_sessions_for_user : ℕ → Option String → Store → ℕ × Store
  delete_sessions_for_user uid kept s = (
    count_if (revoked_by uid kept) s.sessions,
    record s { sessions = keep (λ row. not (revoked_by uid kept row)) s.sessions },
  )

-- `purge_expired_sessions`
unfoldable pub purge_expired_sessions : ℕ → Store → ℕ × Store
purge_expired_sessions now s = (
  count_if (λ row. ltb row.expires_at now) s.sessions,
  record s { sessions = keep (λ row. not (ltb row.expires_at now)) s.sessions },
)
