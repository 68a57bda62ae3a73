-- ===== src/Access/Guarded.antt =====
-- What `gateway_auth` of unify_llm/app.py demands of a request that it lets through.
use text.Mathlib.Text.{starts_with}
use unify_llm.Prelude.{
  ℕ, ◌≡◌, refl, ◌⊎◌, String, true, false, ◌&&◌, ◌||◌, not, Option, none, some, arith, Option-cases,
  Bool-cases, inl, inr, if_either,
}
use unify_llm.Prelude.Text.{str_eq, is_empty, eq_iff}
use unify_llm.Slots.{is_model_api_path}
use unify_llm.Users.Model.{Platform, Store}
use unify_llm.Users.Sessions.{Resolved}
use unify_llm.Users.Keys.{KeyOwner, authenticate_key}
use unify_llm.Access.{
  Incoming, Decision, passed, refused, extract_client_key, keys_match, is_ascii, is_protected,
  is_admin_api, user_of, is_admin, resolve_session, with_user_key, without_key, with_session,
  resolved, by_master_key, gateway_auth,
}

module _ (platform : Platform) (gateway_key : String) (q : Incoming) (now : ℕ) (s : Store) where
  -- The request has the master key.
  abbrev pub HasMasterKey : Type 0
  HasMasterKey = extract_client_key q ≡ gateway_key

  -- What a passed request on a model API shows, with a master key set: that key, or the key of a user
  -- who is then the request's.
  abbrev pub ModelAccess : Decision → Type 0
  ModelAccess (refused status) = Unit
  ModelAccess (passed u) =
      ((u ≡ none) × HasMasterKey)
      ⊎ ((k : KeyOwner) × (t : Store) × (t ≡ (resolve_session platform q now s).1)
          × (authenticate_key platform (extract_client_key q) t ≡ some k)
          × (u ≡ some k.key.user_id))

  -- What a passed request elsewhere under /api/ shows: the master key, or the session of an admin.
  abbrev pub ControlAccess : Decision → Type 0
  ControlAccess (refused status) = Unit
  ControlAccess (passed u) =
      ((u ≡ none) × HasMasterKey)
      ⊎ ((r : Resolved) × ((resolve_session platform q now s).0 ≡ some r)
          × (is_admin (some r) ≡ true)
          × (u ≡ some r.user_id))

  module _ (locked : is_empty gateway_key ≡ false) where
    by_master_key-cases :
        (P : Decision → Type 0)
        → ((status : ℕ) → P (refused status))
        → (HasMasterKey → P (passed none))
        → P
            (resolved platform gateway_key
              (extract_client_key q)
              q
              now
              (resolve_session platform q now s)).0
        → P (by_master_key platform gateway_key q now s).0
    unfolding by_master_key keys_match
    by_master_key-cases P rejects master other =
        rw (locked, by_master_key)
          (elim (Bool-cases (is_ascii (extract_client_key q) && is_ascii gateway_key)) [
            | inr odd ↦ rw (odd, keys_match) (rejects 500)
            | inl plain ↦ (elim (Bool-cases (str_eq (extract_client_key q) gateway_key)) [
              | inl same ↦
                  rw (plain, same, keys_match)
                    (master ((eq_iff (extract_client_key q) gateway_key).0 same))
              | inr other_key ↦ rw (plain, other_key, keys_match) other
            ])
          ])

    -- The path is under the guard, and not an endpoint of the portal's own.
    module _ (guarded : is_protected q.path ≡ true)
        (no_auth : starts_with q.path "/api/auth/" ≡ false)
        (no_me : (starts_with q.path "/api/me/" || str_eq q.path "/api/me") ≡ false) where
      gateway_auth-by_master_key :
          gateway_auth platform gateway_key q now s ≡ by_master_key platform gateway_key q now s
      unfolding gateway_auth
      gateway_auth-by_master_key = rw (guarded, no_auth, no_me, gateway_auth) refl

      no_loopback : (is_admin_api q.path && is_empty gateway_key) ≡ true → ⊥
      no_loopback h = ground (arith, locked)

      module _ (model : is_model_api_path q.path ≡ true) where
        no_session :
            (r : Option Resolved) → (is_admin r && not (is_model_api_path q.path)) ≡ true → ⊥
        no_session r h = ground (arith, model)

        with_session-ModelAccess :
            (r : Option Resolved)
            → ModelAccess
                (with_session platform gateway_key
                  (extract_client_key q)
                  q
                  now
                  r
                  (resolve_session platform q now s).1).0
        unfolding with_session without_key with_user_key
        with_session-ModelAccess r =
            let t = (resolve_session platform q now s).1 in
            let ck = extract_client_key q in
            if_either {A = Decision × Store} (λ d. ModelAccess d.0)
              (is_admin r && not (is_model_api_path q.path)) _ _ (λ h. absurd (no_session r h))
              (λ _.
                if_either {A = Decision × Store} (λ d. ModelAccess d.0)
                  (is_admin_api q.path && is_empty gateway_key) _ _ (λ h. absurd (no_loopback h))
                  (λ _.
                    if_either {A = Decision × Store} (λ d. ModelAccess d.0) (is_empty ck) _ _
                      (λ _. rw (model, locked) tt)
                      (λ _.
                        if_either {A = Decision × Store} (λ d. ModelAccess d.0)
                          (is_model_api_path q.path) _ _
                          (λ _. (elim (Option-cases (authenticate_key platform ck t)) [
                            | inl gone ↦ rw (gone, with_user_key) tt
                            | inr (k, found) ↦
                                rw (found, with_user_key) (inr (k, t, refl, found, refl))
                          ]))
                          (λ _. tt))))

        -- With a master key set, a model API lets nobody through without that key or an accepted key
        -- of a user, who is then the request's; a session is not enough. The path is guarded and is
        -- none of the portal's own endpoints.
        pub gateway_auth-ModelAccess : ModelAccess (gateway_auth platform gateway_key q now s).0
        gateway_auth-ModelAccess = rw gateway_auth-by_master_key (
            by_master_key-cases ModelAccess (λ st. tt) (λ h. inl (refl, h))
              (with_session-ModelAccess (resolve_session platform q now s).0))

      module _ (other : is_model_api_path q.path ≡ false) where
        admin_enters :
            (r : Option Resolved)
            → (resolve_session platform q now s).0 ≡ r
            → (is_admin r && not (is_model_api_path q.path)) ≡ true
            → ControlAccess (passed (user_of r))
        admin_enters none e h = cc
        admin_enters (some r) e h = inr (r, e, ground arith, refl)

        with_session-ControlAccess :
            (r : Option Resolved)
            → (resolve_session platform q now s).0 ≡ r
            → (t : Store)
            → ControlAccess (with_session platform gateway_key (extract_client_key q) q now r t).0
        unfolding with_session without_key with_user_key
        with_session-ControlAccess r e t =
            if_either {A = Decision × Store} (λ d. ControlAccess d.0)
              (is_admin r && not (is_model_api_path q.path)) _ _ (λ h. admin_enters r e h)
              (λ _.
                if_either {A = Decision × Store} (λ d. ControlAccess d.0)
                  (is_admin_api q.path && is_empty gateway_key) _ _ (λ h. absurd (no_loopback h))
                  (λ _.
                    if_either {A = Decision × Store} (λ d. ControlAccess d.0)
                      (is_empty (extract_client_key q)) _ _ (λ _. rw (other, locked) tt)
                      (λ _.
                        if_either {A = Decision × Store} (λ d. ControlAccess d.0)
                          (is_model_api_path q.path) _ _ (λ h. cc) (λ _. tt))))

        -- With a master key set, the other paths under /api/ let nobody through without that key or
        -- the session of an admin, wherever the request comes from. The path is guarded and is none
        -- of the portal's own endpoints.
        pub gateway_auth-ControlAccess : ControlAccess (gateway_auth platform gateway_key q now s).0
        gateway_auth-ControlAccess = rw gateway_auth-by_master_key (
            by_master_key-cases ControlAccess (λ st. tt) (λ h. inl (refl, h))
              (with_session-ControlAccess (resolve_session platform q now s).0 refl
                (resolve_session platform q now s).1))
