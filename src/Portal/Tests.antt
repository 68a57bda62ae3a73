-- ===== src/Portal/Tests.antt =====
-- Logins and keys at the portal of unify_llm/app.py.
use unify_llm.Prelude.{inl, inr, ℕ, ◌*◌, ◌≡◌, refl, String, true, none, some, List, [], ◌∷◌, arith}
use unify_llm.Prelude.Int.{pos}
use unify_llm.Prelude.Clock.{second}
use unify_llm.Prelude.Dict.{lookup, insert, erase}
use unify_llm.Prelude.Text.{str_eq, strip, lstrip, rstrip, is_space}
use unify_llm.LoginGuard.{
  record_success, check, check_locks, check_ip, check_account, enabled, prune, lock_wait,
  record_failure, add_hit,
}
use unify_llm.Users.Model
use unify_llm.Users.Model.{
  Platform, User, Store, active, find_user, verify_password, effective_status,
}
use unify_llm.Users.Keys.{new_key}
use unify_llm.Users.Accounts.{
  authenticate_password, login_row, password_matches, get_user_by_email, get_user_by_name,
}
use unify_llm.Portal.{
  login_granted, Portal, auth_login, login_attempt, login_allowed, login_refused, is_waiting,
  me_revoke_key, keys_of,
}
use unify_llm.Portal.Guessing.{Attempt, try_login, after, is_too_many, Failing, guessing_stopped}
use unify_llm.Users.Sessions.{create_session, open_session}
use unify_llm.Users.Accounts.Login.{Proved}
use unify_llm.Portal.SignIn.{Opens, signed_in-Opens}
use unify_llm.Portal.OwnKeys.{me_revoke_key-keys_of}

abbrev plain : Platform
plain = record {
  lower = λ s. s;
  sha256 = λ s. s;
  scrypt = λ salt password. password;
  scrypt_matches = λ password hash. str_eq password hash;
}

abbrev ann : User
ann = record {
  id = 1;
  name = "ann";
  email = none;
  note = "";
  enabled = true;
  created_at = 0;
  password_hash = some "right password";
  role = Model.user;
  status = some active;
  display_name = "";
  badge = "";
  points_balance = pos 30;
  points_spent = pos 0;
}

abbrev portal : Portal
portal = record {
  guard = record {
    max_per_ip = 0;
    max_per_account = 2;
    window = 60 * second;
    lockout = 30 * second;
    ip_hits = [];
    account_hits = [];
    ip_locked = [];
    account_locked = [];
  };
  users = record {
    users = ann ∷ [];
    next_user = 2;
    keys = new_key 1 1 "key1" "" "key1" 0 ∷ new_key 2 2 "key2" "" "key2" 0 ∷ [];
    next_key = 3;
    sessions = [];
    points_log = [];
    touched = [];
  };
}

abbrev guess : String → String → ℕ → Attempt
guess peer password time = record { peer = peer; password = password; token = "t"; at = time }

-- Two wrong passwords of ann, with a try for another name in between
abbrev guesses : List (String × Attempt)
guesses =
    ("ann", guess "10.0.0.7" "wrong 1" (3 * second))
    ∷ ("bob", guess "10.0.0.7" "wrong 2" (4 * second))
    ∷ (" ann", guess "10.0.0.8" "wrong 3" (5 * second))
    ∷ []

guessing_stopped_example :
    is_too_many
      (try_login plain "ann"
        (guess "10.0.0.9" "right password" (60 * second))
        (after plain guesses portal)).0
    ≡ true
unfolding Failing after auth_login login_attempt login_allowed login_refused is_waiting check
    check_locks check_ip check_account enabled prune lock_wait record_failure add_hit
    authenticate_password login_row verify_password password_matches get_user_by_email
    get_user_by_name find_user effective_status strip lstrip rstrip is_space lookup insert
guessing_stopped_example =
    guessing_stopped plain "ann" guesses (guess "10.0.0.9" "right password" (60 * second)) portal
      refl refl (omega arith) (omega arith)
      (
        omega arith,
        inr (omega arith, refl),
        (omega arith, inl refl, (omega arith, inr (omega arith, refl), tt)),
      )

me_revoke_key-keys_of_example :
    keys_of 2 (me_revoke_key 1 2 (9 * second) portal).1.users ≡ keys_of 2 portal.users
me_revoke_key-keys_of_example =
    me_revoke_key-keys_of 1 2 (9 * second) 2 portal (λ e. cc) (refl, (refl, tt))

signed_in-Opens_example :
    Proved plain "ann" "right password" ann portal.users
    × Opens plain ann "t"
        (100 * second)
        (auth_login plain "10.0.0.7" " ann " "right password" "t" (9 * second) portal).1.users
unfolding auth_login login_attempt login_allowed login_granted check check_locks check_ip
    check_account enabled prune lock_wait record_success create_session open_session
    authenticate_password login_row verify_password find_user effective_status strip lstrip rstrip
    is_space lookup insert erase
signed_in-Opens_example =
    signed_in-Opens plain "10.0.0.7" " ann " "right password" "t" "t" (9 * second) (100 * second)
      portal ann refl refl refl (omega arith)
