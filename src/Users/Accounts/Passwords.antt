-- ===== src/Users/Accounts/Passwords.antt =====
-- `change_password` of unify_llm/users.py: what it demands, what it writes, and whose sessions it ends.
use unify_llm.Prelude.{
  ℕ, ◌≡◌, ◌≢◌, refl, String, Bool, true, false, not, Option, none, some, List, [], ◌∷◌, arith, ◌==◌,
  All, keep, if_either, Bool-cases, inl, inr,
}
use unify_llm.Prelude.Text.{is_empty, eq_iff}
use unify_llm.Users.Model.{
  Platform, User, Session, Store, Result, ok, err, find_user, update_user, verify_password,
  check_password_length, unknown_user,
}
use unify_llm.Users.Rows.{find_user-update_user}
use unify_llm.Users.Sessions.{revoked_by}
use unify_llm.Users.Accounts.{with_password, change_row, change_password, checked}

-- A session of the user is the one to keep.
abbrev pub IsKept : Platform → ℕ → Option String → Session → Type 0
IsKept platform uid none row = row.user_id ≢ uid
IsKept platform uid (some kept) row = row.user_id ≡ uid → row.token ≡ platform.sha256 kept

abbrev others : ℕ → Session → Bool
others uid row = not (row.user_id == uid)

module _ (platform : Platform) (uid : ℕ) where
  IsKept-rows :
      (kept : Option String) (rows : List Session)
      → All (IsKept platform uid kept) (keep (λ row. not (revoked_by platform uid kept row)) rows)
  IsKept-rows none [] = tt
  IsKept-rows none (row ∷ rows) = ground (arith, IsKept-rows none rows)
  IsKept-rows (some k) [] = tt
  IsKept-rows (some k) (row ∷ rows) =
      ground (arith, IsKept-rows (some k) rows, eq_iff row.token (platform.sha256 k))

  other_rows :
      (kept : Option String) (rows : List Session)
      → keep (others uid) (keep (λ row. not (revoked_by platform uid kept row)) rows)
        ≡ keep (others uid) rows
  other_rows none [] = refl
  other_rows none (row ∷ rows) = ground (arith, other_rows none rows)
  other_rows (some k) [] = refl
  other_rows (some k) (row ∷ rows) = ground (arith, other_rows (some k) rows)

-- How a call that began at `s` ends: an error has changed nothing; otherwise the current password was
-- right, the new one's hash is stored, and the user's sessions are gone but the one to keep.
abbrev pub Outcome :
    Platform → ℕ → String → String → String → Option String → Store → Result User × Store → Type 0
Outcome platform uid old new salt kept s (err e, s') = s' ≡ s
Outcome platform uid old new salt kept s (ok u, s') =
    ((row : User) × (find_user uid s.users ≡ some row)
      × (verify_password platform old row.password_hash ≡ true)
      × (verify_password platform new row.password_hash ≡ false))
    × (find_user uid s'.users ≡ some u)
    × (u.password_hash ≡ some (platform.scrypt salt new))
    × All (IsKept platform uid kept) s'.sessions
    × (keep (others uid) s'.sessions ≡ keep (others uid) s.sessions)

module _ (platform : Platform) (uid : ℕ) (old new salt : String) (kept : Option String)
    (s : Store) where
  abbrev Ends : Result User × Store → Type 0
  Ends = Outcome platform uid old new salt kept s

  module _ (row : User) (found : find_user uid s.users ≡ some row)
      (right : verify_password platform old row.password_hash ≡ true)
      (differs : verify_password platform new row.password_hash ≡ false) where
    updated :
        find_user uid (update_user uid (with_password platform (platform.scrypt salt new)) s.users)
        ≡ some (with_password platform (platform.scrypt salt new) row)
    updated = ground (
      arith,
      find_user-update_user (with_password platform (platform.scrypt salt new)) (λ v. refl) uid uid
          s.users,
    )

    changed-Ends :
        (r : Result (Unit {0}))
        → check_password_length new ≡ r
        → Ends (change_row platform uid old new salt kept row s)
    unfolding change_row
    changed-Ends (err e) long = rw (right, differs, long) refl
    changed-Ends (ok tt) fits =
        rw (right, differs, fits, updated)
          (
            (row, found, right, differs),
            updated,
            refl,
            IsKept-rows platform uid kept s.sessions,
            other_rows platform uid kept s.sessions,
          )

  change_row-Ends :
      (row : User)
      → find_user uid s.users ≡ some row
      → Ends (change_row platform uid old new salt kept row s)
  unfolding change_row
  change_row-Ends row found = elim (Bool-cases (verify_password platform old row.password_hash)) [
    | inr wrong ↦ rw (wrong, change_row) refl
    | inl right ↦ elim (Bool-cases (verify_password platform new row.password_hash)) [
      | inl same ↦ rw (right, same, change_row) refl
      | inr differs ↦ changed-Ends row found right differs (check_password_length new) refl
    ]
  ]

  found-Ends :
      (o : Option User)
      → find_user uid s.users ≡ o
      → Ends (elim o [
        | none ↦ (err unknown_user, s)
        | some row ↦ change_row platform uid old new salt kept row s
      ])
  found-Ends none e = refl
  found-Ends (some row) e = change_row-Ends row e

  checked-Ends :
      (r : Result (Unit {0}))
      → Ends (
          checked r
            (λ _ t. elim (find_user uid t.users) [
              | none ↦ (err unknown_user, t)
              | some row ↦ change_row platform uid old new salt kept row t
            ])
            s)
  checked-Ends (err e) = refl
  checked-Ends (ok _) = found-Ends (find_user uid s.users) refl

  -- A password change either fails and changes nothing, or it was given the current password and a
  -- new one, stores the new one's hash, and ends every other session of the user and no one else's.
  pub change_password-Outcome :
      Outcome platform uid old new salt kept s (change_password platform uid old new salt kept s)
  unfolding change_password
  change_password-Outcome =
      if_either Ends (is_empty old) _ _ (λ _. refl) (λ _. checked-Ends (check_password_length new))
