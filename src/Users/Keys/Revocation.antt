-- ===== src/Users/Keys/Revocation.antt =====
-- A revoked API key of unify_llm/users.py stays revoked, and what an accepted key says of its rows.
use unify_llm.Prelude.{
  ℕ, ◌<◌, ◌≡◌, ◌≢◌, sym, ap, ◌∙◌, String, Bool, true, false, ◌&&◌, Option, none, some, List, [],
  ◌∷◌, arith, is_some, All, All-append, find_first, All-find_first, find_first-passes, if_either,
  any_of, Option-cases, Bool-cases, inl, inr,
}
use unify_llm.Prelude.Text.{strip, is_empty, ◌+str◌}
use unify_llm.Users.Model.{
  Platform, User, ApiKey, Store, find_user, effective_status, is_active, active,
}
use unify_llm.Users.Rows.{branch_keeps}
use unify_llm.Users.Keys.{
  KeyOwner, find_key, update_key, key_has_id, has_hash, issue_key, create_api_key, revoked_key,
  revoke_key, enabled_key, enable_row, set_key_enabled, used_key, touch_last_used, is_recent,
  last_touch, accept_key, key_by_hash, authenticate_key,
}

All-update_key {ℓ} :
    (P : ApiKey → Type ℓ) (f : ApiKey → ApiKey) (kid : ℕ) (keys : List ApiKey)
    → ((k : ApiKey) → k.id ≡ kid → P k → P (f k))
    → All P keys
    → All P (update_key kid f keys)
unfolding update_key
All-update_key P f kid [] step h = tt
All-update_key P f kid (k ∷ keys) step h =
    ground (arith, step k, All-update_key P f kid keys step h.1)

-- Every row of the key is disabled and marked as revoked.
abbrev Dead : ℕ → ApiKey → Type 0
Dead kid k = k.id ≡ kid → (k.enabled ≡ false) × (is_some k.revoked_at ≡ true)

record IsDead (kid : ℕ) (s : Store) : Type 0 where
  rows : All (Dead kid) s.keys
  issued : kid < s.next_key

-- The calls that write to the table of keys.
pub data KeyCall : Type 0 where
  create : ℕ → String → String → ℕ → KeyCall
  revoke : ℕ → ℕ → KeyCall
  enable : ℕ → Bool → KeyCall
  touch : ℕ → ℕ → KeyCall

module _ (platform : Platform) where
  unfoldable pub key_call : KeyCall → Store → Store
  key_call (create uid name hex now) s = (create_api_key platform uid name hex now s).1
  key_call (revoke kid now) s = (revoke_key kid now s).1
  key_call (enable kid on) s = (set_key_enabled kid on s).1
  key_call (touch kid now) s = touch_last_used kid now s

  unfoldable pub key_calls : List KeyCall → Store → Store
  key_calls [] s = s
  key_calls (c ∷ l) s = key_calls l (key_call c s)

revoke-Dead :
    (kid now : ℕ) (keys : List ApiKey) → All (Dead kid) (update_key kid (revoked_key now) keys)
unfolding update_key
revoke-Dead kid now [] = tt
revoke-Dead kid now (k ∷ keys) = (λ e. ground arith, revoke-Dead kid now keys)

module _ (kid : ℕ) where
  -- A row that was issued earlier is no row of the new id.
  create-IsDead :
      (platform : Platform) (uid : ℕ) (name hex : String) (now : ℕ) (s : Store)
      → IsDead kid s
      → IsDead kid (create_api_key platform uid name hex now s).1
  unfolding create_api_key issue_key
  create-IsDead platform uid name hex now s d = elim (Option-cases (find_user uid s.users)) [
    | inl gone ↦ rw (gone, create_api_key) d
    | inr (owner, e) ↦ rw (e, create_api_key) (issue-IsDead owner)
  ]
    where
      issue-IsDead : (owner : User) → IsDead kid (issue_key platform uid name hex now owner s).1
      issue-IsDead owner =
          branch_keeps (IsDead kid) (is_active (effective_status owner)) _ _
            (λ _.
              branch_keeps (IsDead kid)
                (any_of (has_hash (platform.sha256 ("sk-unify-" +str hex))) s.keys) _ _ (λ _. d)
                (λ _. record {
                  rows = All-append (Dead kid) s.keys _ d.rows (λ same. absurd (omega arith), tt);
                  issued = omega arith;
                }))
            (λ _. d)

  revoke-IsDead : (j now : ℕ) (s : Store) → IsDead kid s → IsDead kid (revoke_key j now s).1
  unfolding revoke_key
  revoke-IsDead j now s d = record {
    rows =
        All-update_key (Dead kid) (revoked_key now) j s.keys (λ k e dead same. ground arith) d.rows;
    issued = d.issued;
  }

  touch-IsDead : (j now : ℕ) (s : Store) → IsDead kid s → IsDead kid (touch_last_used j now s)
  unfolding touch_last_used
  touch-IsDead j now s d =
      if_either (IsDead kid) (is_recent now (last_touch j s.touched)) _ _ (λ _. d)
        (λ _. record {
          rows =
              All-update_key (Dead kid) (used_key now) j s.keys
                (λ k e dead same. ground (arith, dead same)) d.rows;
          issued = d.issued;
        })

  enable_row-IsDead :
      (j : ℕ) (on : Bool) (row : ApiKey) (s : Store)
      → find_key j s.keys ≡ some row
      → IsDead kid s
      → IsDead kid (enable_row j on row s).1
  unfolding enable_row find_key
  enable_row-IsDead j on row s e d =
      branch_keeps (IsDead kid) (on && is_some row.revoked_at) _ _ (λ _. d)
        (λ free. record {
          rows =
              All-update_key (Dead kid) (enabled_key on) j s.keys
                (λ k at dead same. ground (
                  arith,
                  dead same,
                  All-find_first (Dead kid) (key_has_id j) s.keys row d.rows e,
                  find_first-passes (key_has_id j) s.keys row e,
                ))
                d.rows;
          issued = d.issued;
        })

  enable-IsDead :
      (j : ℕ) (on : Bool) (s : Store) → IsDead kid s → IsDead kid (set_key_enabled j on s).1
  unfolding set_key_enabled
  enable-IsDead j on s d = elim (Option-cases (find_key j s.keys)) [
    | inl gone ↦ rw (gone, set_key_enabled) d
    | inr (row, e) ↦ rw (e, set_key_enabled) (enable_row-IsDead j on row s e d)
  ]

module _ (platform : Platform) (kid : ℕ) where
  key_call-IsDead : (c : KeyCall) (s : Store) → IsDead kid s → IsDead kid (key_call platform c s)
  unfolding key_call
  key_call-IsDead (create uid name hex now) s d = create-IsDead kid platform uid name hex now s d
  key_call-IsDead (revoke j now) s d = revoke-IsDead kid j now s d
  key_call-IsDead (enable j on) s d = enable-IsDead kid j on s d
  key_call-IsDead (touch j now) s d = touch-IsDead kid j now s d

  key_calls-IsDead :
      (l : List KeyCall) (s : Store) → IsDead kid s → IsDead kid (key_calls platform l s)
  unfolding key_calls
  key_calls-IsDead [] s d = d
  key_calls-IsDead (c ∷ l) s d = key_calls-IsDead l (key_call platform c s) (key_call-IsDead c s d)

revoked-IsDead : (kid now : ℕ) (s : Store) → kid < s.next_key → IsDead kid (revoke_key kid now s).1
unfolding revoke_key
revoked-IsDead kid now s issued = record { rows = revoke-Dead kid now s.keys; issued = issued }

accept_key_lem :
    (k : ApiKey) (o : Option User) (found : KeyOwner)
    → accept_key k o ≡ some found
    → (found.key ≡ k)
      × (o ≡ some found.owner)
      × (k.enabled ≡ true)
      × (is_some k.revoked_at ≡ false)
      × (effective_status found.owner ≡ active)
      × (found.owner.enabled ≡ true)
unfolding accept_key effective_status
accept_key_lem k none found e = cc
accept_key_lem k (some owner) found e = ground arith

-- What an accepted key says of the rows, for the hash of the text that was sent.
abbrev pub AcceptedRows : String → Store → KeyOwner → Type 0
AcceptedRows digest s found =
    (find_first (has_hash digest) s.keys ≡ some found.key)
    × (find_user found.key.user_id s.users ≡ some found.owner)
    × (found.key.enabled ≡ true)
    × (is_some found.key.revoked_at ≡ false)
    × (effective_status found.owner ≡ active)
    × (found.owner.enabled ≡ true)

key_by_hash_lem :
    (digest : String) (s : Store) (found : KeyOwner)
    → key_by_hash digest s ≡ some found
    → AcceptedRows digest s found
unfolding key_by_hash
key_by_hash_lem digest s found e = elim (Option-cases (find_first (has_hash digest) s.keys)) [
  | inl gone ↦ cc (rw (gone, key_by_hash) at e)
  | inr (k, h) ↦
      (let a = accept_key_lem k (find_user k.user_id s.users) found (rw (h, key_by_hash) at e) in
        (h ∙ ap some (sym a.0), rw a.0 a.1, rw a.0 a.2, rw a.0 a.3, a.4, a.5))
]

-- An accepted key has a row that is enabled and not revoked, whose hash is that of the text that was
-- sent, and its owner's row is enabled with the status active.
pub authenticate_key_lem :
    (platform : Platform) (raw : String) (s : Store) (found : KeyOwner)
    → authenticate_key platform raw s ≡ some found
    → AcceptedRows (platform.sha256 (strip raw)) s found
unfolding authenticate_key
authenticate_key_lem platform raw s found e = elim (Bool-cases (is_empty (strip raw))) [
  | inl blank ↦ cc (rw (blank, authenticate_key) at e)
  | inr text ↦
      key_by_hash_lem (platform.sha256 (strip raw)) s found (rw (text, authenticate_key) at e)
]

-- A key that has been revoked is never accepted again, whatever calls follow on the table of keys:
-- new keys, other revocations, attempts to enable it, and uses.
pub revoked_for_good :
    (platform : Platform) (kid now : ℕ) (l : List KeyCall) (s : Store) (raw : String)
    → kid < s.next_key
    → (found : KeyOwner)
    → authenticate_key platform raw (key_calls platform l (revoke_key kid now s).1) ≡ some found
    → found.key.id ≢ kid
revoked_for_good platform kid now l s raw issued found e same =
    let s' : Store = key_calls platform l (revoke_key kid now s).1 in
    let dead : IsDead kid s' =
      key_calls-IsDead platform kid l (revoke_key kid now s).1 (revoked-IsDead kid now s issued) in
    let rows = authenticate_key_lem platform raw s' found e in
    let lost =
      All-find_first (Dead kid) (has_hash (platform.sha256 (strip raw))) s'.keys found.key dead.rows
        rows.0 in
    cc ((lost same).0, rows.2)
