-- ===== src/Users/Sessions/Lookup.antt =====
-- What a resolved session of unify_llm/users.py says of its rows, and that a new session resolves.
use unify_llm.Prelude.{
  ℕ, ◌+◌, ◌*◌, max, ◌≤◌, ◌≡◌, refl, String, true, false, Option, none, some, List, [], ◌∷◌, ◌++◌,
  arith, ltb, find_first-append, any_of, any_of-false, Option-cases, Bool-cases, inl, inr,
}
use unify_llm.Prelude.Int.{ℤ, pos_part}
use unify_llm.Prelude.Clock.{second}
use unify_llm.Prelude.Text.{strip, is_empty, eq_refl}
use unify_llm.Users.Model.{
  Platform, User, Session, Store, ok, active, is_active, find_user, effective_status,
}
use unify_llm.Users.Sessions.{
  Resolved, has_token, find_session, new_session, open_session, create_session, resolve_user,
  resolve_row, get_session,
}

-- The session that was asked for is there and has not expired, its user is there and active, and
-- nothing has been written.
abbrev pub ResolvedRows : String → ℕ → Store → Resolved × Store → Type 0
ResolvedRows digest now s (r, s') =
    (row : Session) × (find_session digest s.sessions ≡ some row)
    × (now ≤ row.expires_at)
    × (r.user_id ≡ row.user_id)
    × (find_user row.user_id s.users ≡ some r.user)
    × (effective_status r.user ≡ active)
    × (s' ≡ s)

resolve_user_lem :
    (platform : Platform) (tok : String) (row : Session) (o : Option User) (s : Store)
    (r : Resolved)
    → (resolve_user platform tok row o s).0 ≡ some r
    → (o ≡ some r.user)
      × (effective_status r.user ≡ active)
      × (r.user_id ≡ row.user_id)
      × ((resolve_user platform tok row o s).1 ≡ s)
unfolding resolve_user effective_status
resolve_user_lem platform tok row none s r e = cc
resolve_user_lem platform tok row (some u) s r e = ground arith

resolve_row_lem :
    (platform : Platform) (tok : String) (now : ℕ) (o : Option Session) (s : Store) (r : Resolved)
    → (resolve_row platform tok now o s).0 ≡ some r
    → (row : Session) × (o ≡ some row)
      × (now ≤ row.expires_at)
      × (r.user_id ≡ row.user_id)
      × (find_user row.user_id s.users ≡ some r.user)
      × (effective_status r.user ≡ active)
      × ((resolve_row platform tok now o s).1 ≡ s)
unfolding resolve_row
resolve_row_lem platform tok now none s r e = cc
resolve_row_lem platform tok now (some row) s r e = elim (Bool-cases (ltb row.expires_at now)) [
  | inl late ↦ cc (rw (late, resolve_row) at e)
  | inr fresh ↦
      (let u =
          resolve_user_lem platform tok row (find_user row.user_id s.users) s r
            (rw (fresh, resolve_row) at e) in
        (row, refl, ground arith, u.2, u.0, u.1, rw (fresh, resolve_row) u.3))
]

-- A cookie that resolves names a session that has not expired, of a user who is there and active; the
-- lookup has then changed nothing.
pub get_session_lem :
    (platform : Platform) (token : String) (now : ℕ) (s : Store) (r : Resolved)
    → (get_session platform token now s).0 ≡ some r
    → ResolvedRows (platform.sha256 (strip token)) now s (r, (get_session platform token now s).1)
unfolding get_session find_session
get_session_lem platform token now s r e = elim (Bool-cases (is_empty (strip token))) [
  | inl blank ↦ cc (rw (blank, get_session) at e)
  | inr text ↦
      rw (text, get_session)
        (resolve_row_lem platform (strip token) now
          (find_session (platform.sha256 (strip token)) s.sessions) s r
          (rw (text, get_session) at e))
]

open_session_lem :
    (platform : Platform) (uid : ℕ) (ttl : ℤ) (token : String) (now : ℕ) (u : User) (s : Store)
    → (open_session platform uid ttl token now u s).0 ≡ ok token
    → (is_active (effective_status u) ≡ true)
      × (any_of (has_token (platform.sha256 token)) s.sessions ≡ false)
      × ((open_session platform uid ttl token now u s).1 ≡ record s {
        sessions = s.sessions ++ new_session (platform.sha256 token) uid ttl now ∷ [];
      })
unfolding open_session effective_status
open_session_lem platform uid ttl token now u s made = ground arith

find_new_session :
    (row : Session) (rows : List Session)
    → any_of (has_token row.token) rows ≡ false
    → find_session row.token (rows ++ row ∷ []) ≡ some row
unfolding find_session
find_new_session row rows unique =
    rw
      (
        find_first-append (has_token row.token) rows (row ∷ []),
        any_of-false (has_token row.token) rows unique,
      )
      (rw (eq_refl row.token))

-- The store in which a new session stands, and a lookup of it in time.
get_new_session :
    (platform : Platform) (token : String) (later : ℕ) (row : Session) (u : User) (s : Store)
    → strip token ≡ token
    → is_empty token ≡ false
    → find_session (platform.sha256 token) s.sessions ≡ some row
    → ltb row.expires_at later ≡ false
    → find_user row.user_id s.users ≡ some u
    → is_active (effective_status u) ≡ true
    → get_session platform token later s ≡ (
      some (record {
        token = token;
        user_id = row.user_id;
        user = u;
        expires_at = row.expires_at;
        created_at = row.created_at;
      }),
      s,
    )
unfolding get_session resolve_row resolve_user
get_new_session platform token later row u s clean text found fresh owner may_enter =
    rw (clean, get_session)
      (rw (text, found) (rw (fresh, resolve_row) (rw (owner) (rw (may_enter, resolve_user)))))

-- A session that has just been made resolves to its user until it expires, at the latest after the
-- requested number of seconds, or 60 of them if that is more.
pub create_then_get :
    (platform : Platform) (uid : ℕ) (ttl : ℤ) (token : String) (now later : ℕ) (s : Store)
    → (create_session platform uid ttl token now s).0 ≡ ok token
    → strip token ≡ token
    → is_empty token ≡ false
    → later ≤ now + max 60 (pos_part ttl) * second
    → let s' = (create_session platform uid ttl token now s).1 in
      (r : Resolved) × (get_session platform token later s' ≡ (some r, s'))
      × (r.user_id ≡ uid)
      × (find_user uid s.users ≡ some r.user)
unfolding create_session
create_then_get platform uid ttl token now later s made clean text soon =
    elim (Option-cases (find_user uid s.users)) [
      | inl gone ↦ cc (rw (gone, create_session) at made)
      | inr (u, owner) ↦
          rw (owner, create_session)
            (let opened =
                open_session_lem platform uid ttl token now u s
                  (rw (owner, create_session) at made) in
              rw opened.2 (
                (record {
                  token = token;
                  user_id = uid;
                  user = u;
                  expires_at = now + max 60 (pos_part ttl) * second;
                  created_at = now;
                }),
                get_new_session platform token later
                    (new_session (platform.sha256 token) uid ttl now) u _ clean text
                    (find_new_session (new_session (platform.sha256 token) uid ttl now) s.sessions
                      opened.1)
                    (ground arith) owner opened.0,
                refl,
                refl,
              ))
    ]
