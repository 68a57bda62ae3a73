-- ===== src/Users/Keys.antt =====
-- The API keys of unify_llm/users.py. The random hex text that `secrets` draws and the time are arguments.
pub mod Revocation
use unify_llm.Prelude.{
  ℕ, ◌+◌, ◌-◌, ◌*◌, String, Bool, true, false, ◌&&◌, ◌||◌, not, Option, none, some, List, [], ◌∷◌,
  ◌++◌, ltb, leb, ◌==◌, if◌then◌else◌, find_first, keep, any_of, length, is_some,
}
use unify_llm.Prelude.Clock.{second}
use unify_llm.Prelude.Text.{str_eq, strip, is_empty, ◌+str◌, take_chars}
use unify_llm.Users.Model.{
  Platform, User, ApiKey, Store, Status, Result, ok, err, unknown_user, not_active, integrity,
  revoked, find_user, effective_status, is_active,
}

-- `_row_key` with the raw key that `create_api_key` adds once
pub record NewKey : Type 0 where
  pub row : ApiKey
  pub raw_key : String

-- What `authenticate_key` answers: the owner's row and the key's.
pub record KeyOwner : Type 0 where
  pub owner : User
  pub key : ApiKey

abbrev pub key_has_id : ℕ → ApiKey → Bool
key_has_id kid k = k.id == kid

unfoldable pub find_key : ℕ → List ApiKey → Option ApiKey
find_key kid keys = find_first (key_has_id kid) keys

unfoldable pub update_key : ℕ → (ApiKey → ApiKey) → List ApiKey → List ApiKey
update_key kid f [] = []
update_key kid f (k ∷ keys) = (if key_has_id kid k then f k else k) ∷ update_key kid f keys

abbrev pub has_hash : String → ApiKey → Bool
has_hash digest k = str_eq k.key_hash digest

-- The row that the INSERT of `create_api_key` makes.
abbrev pub new_key : ℕ → ℕ → String → String → String → ℕ → ApiKey
new_key kid uid digest name hex now = record {
  id = kid;
  user_id = uid;
  key_hash = digest;
  key_prefix = take_chars 8 hex;
  name = strip name;
  enabled = true;
  created_at = now;
  last_used_at = none;
  revoked_at = none;
}

module _ (platform : Platform) where
  open platform use {sha256}

  -- `generate_api_key` (raw, hash and prefix), `create_api_key` on the row that `get_user` has found
  unfoldable pub issue_key : ℕ → String → String → ℕ → User → Store → Result NewKey × Store
  issue_key uid name hex now user s =
      let raw = "sk-unify-" +str hex in
      if is_active (effective_status user)
      then (if any_of (has_hash (sha256 raw)) s.keys
          then (err integrity, s)
          else let row = new_key s.next_key uid (sha256 raw) name hex now in
            (
              ok (record { row = row; raw_key = raw }),
              record s { keys = s.keys ++ row ∷ []; next_key = s.next_key + 1 },
            ))
      else (err not_active, s)

  unfoldable pub create_api_key : ℕ → String → String → ℕ → Store → Result NewKey × Store
  unfolding issue_key
  create_api_key uid name hex now s = elim (find_user uid s.users) [
    | none ↦ (err unknown_user, s)
    | some user ↦ issue_key uid name hex now user s
  ]

-- `revoked_at=COALESCE(revoked_at, ?), enabled=0`
abbrev pub revoked_key : ℕ → ApiKey → ApiKey
revoked_key now k = record k {
  revoked_at = elim k.revoked_at [ none ↦ some now | some t ↦ some t ];
  enabled = false;
}

-- `revoke_key`
unfoldable pub revoke_key : ℕ → ℕ → Store → Option ApiKey × Store
revoke_key kid now s =
    let keys = update_key kid (revoked_key now) s.keys in
    (find_key kid keys, record s { keys = keys })

abbrev pub enabled_key : Bool → ApiKey → ApiKey
enabled_key on k = record k { enabled = on }

-- `set_key_enabled`, on the row that it has read
unfoldable pub enable_row : ℕ → Bool → ApiKey → Store → Result (Option ApiKey) × Store
enable_row kid on row s =
    if on && is_some row.revoked_at
    then (err revoked, s)
    else let keys = update_key kid (enabled_key on) s.keys in
      (ok (find_key kid keys), record s { keys = keys })

unfoldable pub set_key_enabled : ℕ → Bool → Store → Result (Option ApiKey) × Store
unfolding enable_row
set_key_enabled kid on s = elim (find_key kid s.keys) [
  | none ↦ (ok none, s)
  | some row ↦ enable_row kid on row s
]

-- `self._touch_at`, a dict from key ids to times
abbrev pub Touched : Type 0
Touched = List (ℕ × ℕ)

unfoldable pub last_touch : ℕ → Touched → Option ℕ
last_touch kid [] = none
last_touch kid ((j, t) ∷ l) = if j == kid then some t else last_touch kid l

unfoldable pub set_touch : ℕ → ℕ → Touched → Touched
set_touch kid now [] = (kid, now) ∷ []
set_touch kid now ((j, t) ∷ l) = if j == kid then (j, now) ∷ l else (j, t) ∷ set_touch kid now l

abbrev pub touch_interval : ℕ
touch_interval = 60 * second

-- Touched less than a minute ago: nothing is written.
abbrev pub is_recent : ℕ → Option ℕ → Bool
is_recent now none = false
is_recent now (some last) = ltb (now - last) touch_interval

-- The cache past its cap keeps the entries of the last minute.
unfoldable pub capped_touches : ℕ → Touched → Touched
capped_touches now l =
    if ltb 4096 (length l) then keep (λ e. leb now (e.1 + touch_interval)) l else l

abbrev pub used_key : ℕ → ApiKey → ApiKey
used_key now k = record k { last_used_at = some now }

-- `touch_last_used`
unfoldable pub touch_last_used : ℕ → ℕ → Store → Store
unfolding capped_touches
touch_last_used kid now s = if is_recent now (last_touch kid s.touched) then s else record s {
  keys = update_key kid (used_key now) s.keys;
  touched = set_touch kid now (capped_touches now s.touched);
}

-- The tests of `authenticate_key` on a key's row and on its owner's
unfoldable pub accept_key : ApiKey → Option User → Option KeyOwner
accept_key k none = none
accept_key k (some owner) =
    if not k.enabled || is_some k.revoked_at
    then none
    else if not (is_active (effective_status owner)) || not owner.enabled
    then none
    else some (record { owner = owner; key = k })

-- `SELECT … FROM api_keys k JOIN users u ON u.id = k.user_id WHERE k.key_hash=?`
unfoldable pub key_by_hash : String → Store → Option KeyOwner
unfolding accept_key
key_by_hash digest s = elim (find_first (has_hash digest) s.keys) [
  | none ↦ none
  | some k ↦ accept_key k (find_user k.user_id s.users)
]

module _ (platform : Platform) where
  open platform use {sha256}

  -- `authenticate_key`
  unfoldable pub authenticate_key : String → Store → Option KeyOwner
  unfolding key_by_hash
  authenticate_key raw s =
      let key = strip raw in if is_empty key then none else key_by_hash (sha256 key) s

-- `has_any_active_key`
abbrev pub is_usable : Store → ApiKey → Bool
is_usable s k = k.enabled && not (is_some k.revoked_at) && (elim (find_user k.user_id s.users) [
  | none ↦ false
  | some u ↦ u.enabled && (elim u.status [ none ↦ true | some st ↦ is_active st ])
])

unfoldable pub has_any_active_key : Store → Bool
has_any_active_key s = any_of (is_usable s) s.keys
