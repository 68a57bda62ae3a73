-- ===== src/Users/Accounts/Login.antt =====
-- Who passes `authenticate_password` of unify_llm/users.py.
use unify_llm.Prelude.{
  ◌≡◌, refl, ap, ◌∙◌, ◌⊎◌, inl, inr, String, Bool, true, Option, none, some, List, [], ◌∷◌,
  find_first, find_first-passes, Option-cases, Bool-cases, arith,
}
use mathlib.Core.Option.{some-injective}
use mathlib.Core.Path.{subst}
use mathlib.Core.List.{Mem, mem-cons_self, mem-cons_of_mem}
use unify_llm.Prelude.Text.{strip, is_empty, eq_iff}
use unify_llm.Users.Model.{
  Platform, User, Store, pending, active, disabled, is_active, Status, effective_status,
  verify_password,
}
use unify_llm.Users.Accounts.{has_email, has_name, login_row, login_check, authenticate_password}

find_first-Mem {ℓ} :
    {A : Type ℓ} (q : A → Bool) (xs : List A) (x : A) → find_first q xs ≡ some x → Mem x xs
find_first-Mem q [] x e = cc
find_first-Mem q (y ∷ xs) x e = elim (Bool-cases (q y)) [
  | inl passes ↦
      let same : some y ≡ some x = rw passes at e in
      subst (λ z. Mem z (y ∷ xs)) (some-injective y x same) (mem-cons_self {a = y} {l = xs})
  | inr fails ↦ mem-cons_of_mem y (find_first-Mem q xs x (rw fails at e))
]

has_email-named :
    (login : String) (u : User) → has_email (some login) u ≡ true → u.email ≡ some login
has_email-named login u h = elim (Option-cases u.email) [
  | inl gone ↦ cc (rw gone at h)
  | inr (e, there) ↦ there ∙ ap some ((eq_iff e login).0 (rw there at h))
]

login_row-named :
    (login : String) (s : Store) (u : User)
    → login_row login s ≡ some u
    → Mem u s.users × ((u.email ≡ some login) ⊎ (u.name ≡ login))
unfolding login_row
login_row-named login s u h = elim (Option-cases (find_first (has_email (some login)) s.users)) [
  | inl gone ↦
      let e = rw (gone, login_row) at h in
      (
        find_first-Mem (has_name login) s.users u e,
        inr ((eq_iff u.name login).0 (find_first-passes (has_name login) s.users u e)),
      )
  | inr (v, there) ↦
      let e : find_first (has_email (some login)) s.users ≡ some u =
        there ∙ (rw (there, login_row) at h) in
      (
        find_first-Mem (has_email (some login)) s.users u e,
        inl (has_email-named login u (find_first-passes (has_email (some login)) s.users u e)),
      )
]

-- The row is active, and has a hash that the password matches.
abbrev Checked : Platform → String → User → Type 0
Checked platform password u =
    (effective_status u ≡ active)
    × (hash : String) × (u.password_hash ≡ some hash)
    × (platform.scrypt_matches password hash ≡ true)

-- The row is one of the store, has the login as its email or its name, is active, and has a hash that
-- the password matches.
abbrev pub Proved : Platform → String → String → User → Store → Type 0
Proved platform login password u s =
    (Mem u s.users × ((u.email ≡ some login) ⊎ (u.name ≡ login))) × Checked platform password u

is_active-active : (st : Status) → is_active st ≡ true → st ≡ active
is_active-active pending h = cc
is_active-active active h = refl
is_active-active disabled h = cc

verify_password-matches :
    (platform : Platform) (password : String) (o : Option String)
    → verify_password platform password o ≡ true
    → (hash : String) × (o ≡ some hash) × (platform.scrypt_matches password hash ≡ true)
unfolding verify_password
verify_password-matches platform password none h = cc
verify_password-matches platform password (some hash) h = (hash, refl, ground (arith, h))

checked :
    (platform : Platform) (password : String) (v : User)
    → effective_status v ≡ active
    → (hash : String) × (v.password_hash ≡ some hash)
      × (platform.scrypt_matches password hash ≡ true)
    → Checked platform password v
checked platform password v still (hash, has, matches) = (still, hash, has, matches)

login_check-Checked :
    (platform : Platform) (password : String) (v u : User)
    → login_check platform password v ≡ some u
    → (v ≡ u) × Checked platform password v
unfolding verify_password
login_check-Checked platform password v u h =
    elim (Bool-cases (verify_password platform password v.password_hash)) [
      | inr wrong ↦ cc (rw wrong at h)
      | inl right ↦ (elim (Bool-cases (is_active (effective_status v))) [
        | inr out ↦ cc (rw (right, out) at h)
        | inl still ↦ (
          cc (rw (right, still) at h),
          checked platform password v (is_active-active (effective_status v) still)
              (verify_password-matches platform password v.password_hash right),
        )
      ])
    ]

pub authenticate_password-Proved :
    (platform : Platform) (login password : String) (s : Store) (u : User)
    → authenticate_password platform login password s ≡ some u
    → Proved platform (strip login) password u s
unfolding authenticate_password
authenticate_password-Proved platform login password s u h =
    let name = strip login in
    elim (Bool-cases (is_empty name)) [
      | inl blank ↦ cc (rw (blank, authenticate_password) at h)
      | inr named ↦ (elim (Bool-cases (is_empty password)) [
        | inl blank ↦ cc (rw (named, blank, authenticate_password) at h)
        | inr typed ↦ (elim (Option-cases (login_row name s)) [
          | inl gone ↦ cc (rw (named, typed, gone, authenticate_password) at h)
          | inr (v, there) ↦
              let (same, facts) =
                login_check-Checked platform password v u
                  (rw (named, typed, there, authenticate_password) at h) in
              subst (λ w. Proved platform name password w s) same
                (login_row-named name s v there, facts)
        ])
      ])
    ]
