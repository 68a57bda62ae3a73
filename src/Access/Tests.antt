-- ===== src/Access/Tests.antt =====
-- Requests to `gateway_auth` of unify_llm/app.py with a master key set.
use unify_llm.Prelude.{◌≡◌, refl, none, some, [], ◌∷◌, true}
use unify_llm.Prelude.Int.{pos}
use unify_llm.Prelude.Text.{str_eq, strip, lstrip, rstrip, is_space}
use unify_llm.Slots.{is_model_api_path}
use unify_llm.Users.Model
use unify_llm.Users.Model.{Platform, User, Store, active, find_user, effective_status}
use unify_llm.Users.Keys.{new_key, authenticate_key, key_by_hash, accept_key, touch_last_used}
use unify_llm.Access.{
  Incoming, passed, refused, gateway_auth, is_protected, by_master_key, extract_client_key,
  keys_match, is_ascii, with_session, resolve_session, with_user_key,
}
use unify_llm.Access.Guarded.{
  ModelAccess, ControlAccess, gateway_auth-ModelAccess, gateway_auth-ControlAccess,
}

abbrev plain : Platform
plain = record {
  lower = λ s. s;
  sha256 = λ s. s;
  scrypt = λ salt password. password;
  scrypt_matches = λ password hash. str_eq password hash;
}

abbrev ann : User
ann = record {
  id = 1;
  name = "ann";
  email = none;
  note = "";
  enabled = true;
  created_at = 0;
  password_hash = none;
  role = Model.user;
  status = some active;
  display_name = "";
  badge = "";
  points_balance = pos 30;
  points_spent = pos 0;
}

abbrev accounts : Store
accounts = record Model.empty { users = ann ∷ []; keys = new_key 1 1 "key1" "" "key1" 0 ∷ [] }

abbrev messages : Incoming
messages = record {
  path = "/v1/messages";
  x_api_key = "key1";
  authorization = "";
  cookie = "";
  peer = "10.0.0.7";
}

-- The user key gets in, and the request is its owner's.
messages_passed : (gateway_auth plain "master" messages 5 accounts).0 ≡ passed (some 1)
unfolding gateway_auth is_protected is_model_api_path by_master_key extract_client_key keys_match
    is_ascii with_session resolve_session with_user_key authenticate_key key_by_hash accept_key
    find_user effective_status strip lstrip rstrip is_space touch_last_used
messages_passed = refl

gateway_auth-ModelAccess_example :
    ModelAccess plain "master" messages 5 accounts
      (gateway_auth plain "master" messages 5 accounts).0
unfolding is_protected is_model_api_path
gateway_auth-ModelAccess_example =
    gateway_auth-ModelAccess plain "master" messages 5 accounts refl refl refl refl refl

abbrev reload : Incoming
reload = record {
  path = "/api/admin/reload";
  x_api_key = "";
  authorization = "Bearer key1";
  cookie = "";
  peer = "127.0.0.1";
}

-- A user key is no key to the admin API, not even from the same host.
reload_denied : (gateway_auth plain "master" reload 5 accounts).0 ≡ refused 401
unfolding gateway_auth is_protected is_model_api_path by_master_key extract_client_key keys_match
    is_ascii with_session resolve_session
reload_denied = refl

gateway_auth-ControlAccess_example :
    ControlAccess plain "master" reload 5 accounts (gateway_auth plain "master" reload 5 accounts).0
unfolding is_protected is_model_api_path
gateway_auth-ControlAccess_example =
    gateway_auth-ControlAccess plain "master" reload 5 accounts refl refl refl refl refl
