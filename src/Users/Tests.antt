-- ===== src/Users/Tests.antt =====
-- The accounts of unify_llm/users.py at a concrete store.
use unify_llm.Prelude.{ℕ, ◌≡◌, ◌≢◌, refl, String, true, none, some, List, [], ◌∷◌, arith}
use unify_llm.Prelude.Int.{pos, ◌+ℤ◌, ◌-ℤ◌, ◌≤ℤ◌}
use unify_llm.Prelude.Text.{str_eq, strip, lstrip, rstrip, is_space}
use unify_llm.Users.Model
use unify_llm.Users.Model.{
  Platform, User, ApiKey, Store, find_user, update_user, effective_status, disabled, active, Result,
  ok, err,
}
use unify_llm.Users.Points.{Usage, deduct_points}
use unify_llm.Users.Points.Ledger.{Moved, logged, deduct_points-Moved}
use unify_llm.Users.Points.History.{Movement, moves, add, take_off, points_accounted}
use unify_llm.Users.Sessions.{Resolved, get_session}
use unify_llm.Users.Keys.{
  KeyOwner, new_key, revoke_key, update_key, authenticate_key, key_by_hash, accept_key,
}
use unify_llm.Users.Keys.Revocation.{key_call, key_calls, revoked_for_good}
use unify_llm.Users.Accounts.{put_status, authenticate_password, change_password}
use unify_llm.Users.Accounts.Passwords.{Outcome, change_password-Outcome}
use unify_llm.Users.Accounts.Status.{locked_out}

-- A platform whose digests are the texts themselves.
abbrev plain : Platform
plain = record {
  lower = λ s. s;
  sha256 = λ s. s;
  scrypt = λ salt password. password;
  scrypt_matches = λ password hash. str_eq password hash;
}

abbrev ann : User
ann = record {
  id = 1;
  name = "ann";
  email = none;
  note = "";
  enabled = true;
  created_at = 0;
  password_hash = some "old password";
  role = Model.user;
  status = some active;
  display_name = "";
  badge = "";
  points_balance = pos 30;
  points_spent = pos 0;
}

abbrev accounts : Store
accounts = record {
  users = ann ∷ record ann { id = 2; name = "bob" } ∷ [];
  next_user = 3;
  keys = new_key 1 1 "key1" "" "key1" 0 ∷ new_key 2 2 "key2" "" "key2" 0 ∷ [];
  next_key = 3;
  sessions = [];
  points_log = [];
  touched = [];
}

abbrev usage : Usage
usage = record { prompt_tokens = 900; completion_tokens = 100; note = "/v1/messages" }

-- The balance stops at 0.
deduct_points-Moved_example :
    Moved 1 ann (pos 0) (pos 50) accounts (deduct_points 1 (pos 50) usage 7 accounts).1
unfolding find_user ◌+ℤ◌ ◌-ℤ◌
deduct_points-Moved_example = deduct_points-Moved 1 accounts ann refl (omega arith) (pos 50) usage 7

abbrev movements : List (ℕ × Movement)
movements = (1, take_off (pos 50) usage 7) ∷ (2, add (pos 3) 8) ∷ (1, add (pos 10) 9) ∷ []

points_accounted_example :
    (u' : User) × (find_user 1 (moves movements accounts).users ≡ some u')
    × (pos 0 ≤ℤ u'.points_balance)
    × (u'.points_balance +ℤ logged 1 accounts.points_log
        ≡ pos 30 +ℤ logged 1 (moves movements accounts).points_log)
unfolding find_user
points_accounted_example = points_accounted 1 movements accounts ann refl (omega arith)

-- The second key goes on after the first was revoked.
abbrev second_key : KeyOwner
second_key = record {
  owner = record ann { id = 2; name = "bob" };
  key = new_key 2 2 "key2" "" "key2" 0;
}

revoked_for_good_example : second_key.key.id ≢ 1
unfolding revoke_key update_key key_calls key_call authenticate_key key_by_hash accept_key find_user
    effective_status strip lstrip rstrip is_space
revoked_for_good_example =
    revoked_for_good plain 1 5 [] accounts "key2" (omega arith) second_key refl

locked_out_example :
    let s' = (put_status 1 disabled accounts).1 in
    ((raw : String) (found : KeyOwner)
      → authenticate_key plain raw s' ≡ some found
      → found.key.user_id ≢ 1)
    × ((token : String) (now : ℕ) (r : Resolved)
        → (get_session plain token now s').0 ≡ some r
        → r.user_id ≢ 1)
    × ((login password : String) (u : User)
        → authenticate_password plain login password s' ≡ some u
        → u.id ≢ 1)
locked_out_example = locked_out plain 1 disabled accounts (λ e. cc)

change_password-Outcome_example :
    Outcome plain 1 "old password" "new password" "salt" none accounts
      (change_password plain 1 "old password" "new password" "salt" none accounts)
change_password-Outcome_example =
    change_password-Outcome plain 1 "old password" "new password" "salt" none accounts
