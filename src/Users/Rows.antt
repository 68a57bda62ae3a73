-- ===== src/Users/Rows.antt =====
-- Reading a row of `users` after an update of one row.
use unify_llm.Prelude.{
  ℕ, ◌≡◌, refl, Bool, true, false, Option, none, some, List, [], ◌∷◌, arith, ◌==◌, if◌then◌else◌,
  All,
}
use unify_llm.Users.Model.{User, Store, find_user, update_user}

abbrev pub map_row : (User → User) → Option User → Option User
map_row f none = none
map_row f (some u) = some (f u)

module _ (f : User → User) (keeps_id : (u : User) → (f u).id ≡ u.id) where
  pub find_user-update_user :
      (uid j : ℕ) (users : List User)
      → find_user j (update_user uid f users)
        ≡ (if uid == j then map_row f (find_user j users) else find_user j users)
  unfolding find_user update_user
  find_user-update_user uid j [] = ground arith
  find_user-update_user uid j (u ∷ users) =
      ground (arith, find_user-update_user uid j users, keeps_id u)

-- A row that is found has the id that was asked for.
pub find_user-id :
    (uid : ℕ) (users : List User) (u : User) → find_user uid users ≡ some u → u.id ≡ uid
unfolding find_user
find_user-id uid [] u h = cc
find_user-id uid (v ∷ users) u h = ground (arith, find_user-id uid users u)

-- What holds of every row is kept by an update that keeps it of one.
pub All-update_user {ℓ} :
    (P : User → Type ℓ) (f : User → User) (uid : ℕ) (users : List User)
    → ((u : User) → P u → P (f u))
    → All P users
    → All P (update_user uid f users)
unfolding update_user
All-update_user P f uid [] step h = tt
All-update_user P f uid (u ∷ users) step h =
    ground (arith, step u, All-update_user P f uid users step h.1)

pub All-find_user {ℓ} :
    (P : User → Type ℓ) (uid : ℕ) (users : List User) (u : User)
    → All P users
    → find_user uid users ≡ some u
    → P u
unfolding find_user
All-find_user P uid [] u h e = cc
All-find_user P uid (v ∷ users) u h e = ground (arith, All-find_user P uid users u)

-- Both branches of a method's test keep a property of the store.
pub branch_keeps :
    {R : Type 0} (P : Store → Type 0) (b : Bool) (x y : R × Store)
    → (b ≡ true → P x.1)
    → (b ≡ false → P y.1)
    → P (if b then x else y).1
branch_keeps P true x y h k = h refl
branch_keeps P false x y h k = k refl
