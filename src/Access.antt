-- ===== src/Access.antt =====
-- `gateway_auth` of unify_llm/app.py: who may call which path. An answer of the call that follows is
-- not part of it.
pub mod Guarded
mod Tests
use Prim.Native.Char.{code}
use Prim.Native.String.{[], ◌∷◌}
use text.Mathlib.Text.{starts_with}
use unify_llm.Prelude.{
  ℕ, String, Bool, true, false, ◌&&◌, ◌||◌, not, Option, none, some, ltb, if◌then◌else◌, length,
}
use unify_llm.Prelude.Text.{str_eq, is_empty, strip}
use unify_llm.Slots.{is_model_api_path}
use unify_llm.Users.Model.{Platform, Store, Role, admin}
use unify_llm.Users.Sessions.{Resolved, get_session}
use unify_llm.Users.Keys.{KeyOwner, authenticate_key, touch_last_used, has_any_active_key}

-- What the middleware reads of a request; a missing header or cookie is the empty text, as is the
-- address of a missing peer.
pub record Incoming : Type 0 where
  pub path : String
  pub x_api_key : String
  pub authorization : String
  pub cookie : String
  pub peer : String

-- Passed on with the user that the request is for, or answered with a status.
pub data Decision : Type 0 where
  passed : Option ℕ → Decision
  refused : ℕ → Decision

abbrev drop_char : String → String
drop_char [] = []
drop_char (c ∷ s) = s

-- `auth[7:]`
abbrev drop_seven : String → String
drop_seven s = drop_char (drop_char (drop_char (drop_char (drop_char (drop_char (drop_char s))))))

-- `_extract_client_key`
unfoldable pub extract_client_key : Incoming → String
extract_client_key q =
    if not (is_empty q.x_api_key)
    then q.x_api_key
    else if starts_with q.authorization "Bearer "
    then drop_seven q.authorization
    else ""

unfoldable pub is_ascii : String → Bool
is_ascii [] = true
is_ascii (c ∷ s) = ltb (code c) 128 && is_ascii s

-- `_keys_match`; none where `hmac.compare_digest` raises, on text that is not ASCII
unfoldable pub keys_match : String → String → Option Bool
unfolding is_ascii
keys_match provided expected =
    if is_ascii provided && is_ascii expected then some (str_eq provided expected) else none

unfoldable pub is_protected : String → Bool
unfolding is_model_api_path
is_protected path = is_model_api_path path || starts_with path "/api/"

abbrev pub is_admin_api : String → Bool
is_admin_api path = starts_with path "/api/admin/"

-- The user that a resolved session sets on the request.
abbrev pub user_of : Option Resolved → Option ℕ
user_of none = none
user_of (some r) = some r.user_id

abbrev pub is_admin_role : Role → Bool
is_admin_role admin = true
is_admin_role _ = false

abbrev pub is_admin : Option Resolved → Bool
is_admin none = false
is_admin (some r) = is_admin_role r.user.role

module _ (platform : Platform) where
  -- `_is_loopback`
  unfoldable pub is_loopback : String → Bool
  is_loopback host =
      let h = platform.lower (strip host) in
      str_eq h "127.0.0.1" || str_eq h "::1" || str_eq h "localhost" || is_empty h

  -- `_resolve_session`
  unfoldable pub resolve_session : Incoming → ℕ → Store → Option Resolved × Store
  unfolding get_session
  resolve_session q now s =
      if is_empty q.cookie then (none, s) else get_session platform q.cookie now s

  -- A model API with a key that is not the master key.
  unfoldable pub with_user_key : String → ℕ → Store → Decision × Store
  unfolding authenticate_key touch_last_used
  with_user_key client_key now s = elim (authenticate_key platform client_key s) [
    | none ↦ (refused 401, s)
    | some found ↦ (passed (some found.key.user_id), touch_last_used found.key.id now s)
  ]

  -- No key at all.
  unfoldable pub without_key : String → Incoming → Option Resolved → Store → Decision
  unfolding is_loopback has_any_active_key is_model_api_path
  without_key gateway_key q r s =
      if is_model_api_path q.path
      then (if is_empty gateway_key && not (has_any_active_key s)
          then passed (user_of r)
          else refused 401)
      else if is_empty gateway_key
      then (if is_loopback q.peer
          then passed (user_of r)
          else if ltb 0 (length s.users)
          then refused 401
          else passed (user_of r))
      else refused 401

  -- After the master key: the session, the loopback rule, and the user keys
  unfoldable pub with_session :
      String → String → Incoming → ℕ → Option Resolved → Store → Decision × Store
  unfolding with_user_key without_key is_loopback is_model_api_path
  with_session gateway_key client_key q now r s =
      if is_admin r && not (is_model_api_path q.path)
      then (passed (user_of r), s)
      else if is_admin_api q.path && is_empty gateway_key
      then (if is_loopback q.peer then passed (user_of r) else refused 403, s)
      else if is_empty client_key
      then (without_key gateway_key q r s, s)
      else if is_model_api_path q.path
      then with_user_key client_key now s
      else (refused 401, s)

  abbrev pub resolved : String → String → Incoming → ℕ → Option Resolved × Store → Decision × Store
  resolved gateway_key client_key q now (r, s) = with_session gateway_key client_key q now r s

  -- The master key, or else the rest; a comparison that raises is a server error
  unfoldable pub by_master_key : String → Incoming → ℕ → Store → Decision × Store
  unfolding extract_client_key keys_match with_session resolve_session
  by_master_key gateway_key q now s =
      let client_key = extract_client_key q in
      if is_empty gateway_key
      then resolved gateway_key client_key q now (resolve_session q now s)
      else elim (keys_match client_key gateway_key) [
        | none ↦ (refused 500, s)
        | some same ↦
            (if same
              then (passed none, s)
              else resolved gateway_key client_key q now (resolve_session q now s))
      ]

  abbrev pub auth_endpoint : Option Resolved × Store → Decision × Store
  auth_endpoint (r, s) = (passed (user_of r), s)

  abbrev pub own_endpoint : Option Resolved × Store → Decision × Store
  own_endpoint (none, s) = (refused 401, s)
  own_endpoint (some r, s) = (passed (some r.user_id), s)

  -- `gateway_auth`
  unfoldable pub gateway_auth : String → Incoming → ℕ → Store → Decision × Store
  unfolding by_master_key resolve_session is_protected
  gateway_auth gateway_key q now s =
      if not (is_protected q.path)
      then (passed none, s)
      else if starts_with q.path "/api/auth/"
      then auth_endpoint (resolve_session q now s)
      else if starts_with q.path "/api/me/" || str_eq q.path "/api/me"
      then own_endpoint (resolve_session q now s)
      else by_master_key gateway_key q now s
