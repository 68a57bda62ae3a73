-- ===== src/Portal/OwnKeys.antt =====
-- What `me_revoke_key` (unify_llm/app.py) leaves alone.
use mathlib.Core.Path.{subst}
use unify_llm.Prelude.{
  Bool-cases, inl, inr, ℕ, ◌≡◌, ◌≢◌, refl, true, false, List, [], ◌∷◌, keep, any_of, ◌==◌, arith,
}
use unify_llm.Users.Model.{ApiKey}
use unify_llm.Users.Keys.{revoke_key, update_key, revoked_key}
use unify_llm.Portal.{Portal, me_revoke_key, keys_of}

-- No id is there twice.
abbrev pub DistinctIds : List ApiKey → Type 0
DistinctIds [] = Unit
DistinctIds (k ∷ ks) = (any_of (λ j. j.id == k.id) ks ≡ false) × DistinctIds ks

update_key-absent :
    (kid now other : ℕ) (ks : List ApiKey)
    → any_of (λ j. j.id == kid) ks ≡ false
    → update_key kid (revoked_key now) ks ≡ ks
unfolding update_key
update_key-absent kid now other [] h = refl
update_key-absent kid now other (k ∷ ks) h = ground (arith, update_key-absent kid now other ks, h)

any_of-own :
    (kid uid : ℕ) (ks : List ApiKey)
    → any_of (λ j. j.id == kid) ks ≡ false
    → any_of (λ j. j.id == kid) (keep (λ k. k.user_id == uid) ks) ≡ false
any_of-own kid uid [] h = refl
any_of-own kid uid (k ∷ ks) h = ground (arith, any_of-own kid uid ks)

others_kept :
    (kid now uid other : ℕ) (ks : List ApiKey)
    → other ≢ uid
    → DistinctIds ks
    → any_of (λ j. j.id == kid) (keep (λ k. k.user_id == uid) ks) ≡ true
    → keep (λ k. k.user_id == other) (update_key kid (revoked_key now) ks)
      ≡ keep (λ k. k.user_id == other) ks
unfolding update_key
others_kept kid now uid other [] ne d h = cc
others_kept kid now uid other (k ∷ ks) ne d h =
    let alone : (k.id == kid) ≡ true → any_of (λ j. j.id == kid) ks ≡ false =
      λ same. subst (λ i. any_of (λ j. j.id == i) ks ≡ false) (id_of k same) d.0 in
    ground (
      arith,
      h,
      ne,
      alone,
      update_key-absent kid now other ks,
      any_of-own kid uid ks,
      others_kept kid now uid other ks ne d.1,
    )
  where
    id_of : (k : ApiKey) → (k.id == kid) ≡ true → k.id ≡ kid
    id_of k same = ground (arith, same)

-- With distinct ids, a user who revokes a key at the portal leaves the keys of every other user as they
-- are, whatever id is given.
pub me_revoke_key-keys_of :
    (uid kid now other : ℕ) (p : Portal)
    → other ≢ uid
    → DistinctIds p.users.keys
    → keys_of other (me_revoke_key uid kid now p).1.users ≡ keys_of other p.users
unfolding me_revoke_key revoke_key
me_revoke_key-keys_of uid kid now other p ne d =
    elim (Bool-cases (any_of (λ k. k.id == kid) (keys_of uid p.users))) [
      | inl own ↦ rw (own, me_revoke_key) (others_kept kid now uid other p.users.keys ne d own)
      | inr not_own ↦ rw (not_own, me_revoke_key) refl
    ]
