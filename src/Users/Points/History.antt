-- ===== src/Users/Points/History.antt =====
-- Histories of movements of points (unify_llm/users.py) and the balances that they lead to.
use unify_llm.Prelude.{
  ℕ, ◌≡◌, ◌≢◌, refl, some, List, [], ◌∷◌, ◌++◌, arith, Bool-cases, Option-cases, inl, inr, sym, ap,
  ◌∙◌,
}
use mathlib.Core.Path.{subst}
use native.Mathlib.Decide.{ℕ_discrete}
use unify_llm.Prelude.Int.{ℤ, pos, ◌+ℤ◌, ◌-ℤ◌, ◌≤ℤ◌, eqb_ℤ, max_ℤ, int_laws, pos_part, neg_part}
use unify_llm.Users.Model.{User, Store, PointsEntry, find_user, update_user}
use unify_llm.Users.Rows.{find_user-update_user}
use unify_llm.Users.Points.{
  unlimited, added, charged, deducted, Usage, add_to, add_points, deduct_from, deduct_points,
}
use unify_llm.Users.Points.Ledger.{
  logged, logged-append_one, Moved, add_points-Moved, deduct_points-Moved,
}

pub data Movement : Type 0 where
  add : ℤ → ℕ → Movement
  take_off : ℤ → Usage → ℕ → Movement

pub move : ℕ → Movement → Store → Store
move uid (add d now) s = (add_points uid d now s).1
move uid (take_off amount usage now) s = (deduct_points uid amount usage now s).1

-- Movements of many users, in the order in which the store's lock lets them in.
pub moves : List (ℕ × Movement) → Store → Store
moves [] s = s
moves ((uid, m) ∷ l) s = moves l (move uid m s)

add_zero : (n : ℤ) → n +ℤ pos 0 ≡ n
add_zero n = omega int_laws

logged_other :
    (j : ℕ) (log : List PointsEntry) (e : PointsEntry)
    → e.user_id ≢ j
    → logged j (log ++ e ∷ []) ≡ logged j log
logged_other j log e ne = rw (logged-append_one j log e) (ground (arith, add_zero (logged j log)))

module _ (uid j : ℕ) (s : Store) (ne : uid ≢ j) where
  -- A movement of one user's points leaves another's row and log entries alone.
  abbrev Untouched : Store → Type 0
  Untouched s' =
      (find_user j s'.users ≡ find_user j s.users)
      × (logged j s'.points_log ≡ logged j s.points_log)

  other_row :
      (f : User → User)
      → ((v : User) → (f v).id ≡ v.id)
      → find_user j (update_user uid f s.users) ≡ find_user j s.users
  other_row f keeps_id = ground (arith, find_user-update_user f keeps_id uid j s.users)

  add_to-other : (d : ℤ) (now : ℕ) (row : User) → Untouched (add_to uid d now row s).1
  add_to-other d now row = elim (Bool-cases (eqb_ℤ row.points_balance unlimited)) [
    | inl free ↦ unfold add_to in rw (free, add_to) (refl, refl)
    | inr paid ↦
        unfold add_to in
        rw (paid, add_to) (other_row (added d) (λ v. refl), logged_other j s.points_log _ ne)
  ]

  deduct_from-other :
      (amt : ℤ) (usage : Usage) (now : ℕ) (row : User)
      → Untouched (deduct_from uid amt usage now row s).1
  unfolding deduct_from
  deduct_from-other amt usage now row = elim (Bool-cases (eqb_ℤ row.points_balance unlimited)) [
    | inl free ↦
        rw (free, deduct_from)
          (other_row (charged amt) (λ v. refl), logged_other j s.points_log _ ne)
    | inr paid ↦
        rw (paid, deduct_from)
          (other_row (deducted amt) (λ v. refl), logged_other j s.points_log _ ne)
  ]

  move-other : (m : Movement) → Untouched (move uid m s)
  unfolding move add_points deduct_points
  move-other (add d now) = elim (Option-cases (find_user uid s.users)) [
    | inl gone ↦ rw (gone, move, add_points) (refl, refl)
    | inr (row, e) ↦ rw (e, move, add_points) (add_to-other d now row)
  ]
  move-other (take_off amount usage now) =
      elim (Bool-cases (eqb_ℤ (max_ℤ (pos 0) amount) (pos 0))) [
        | inl free ↦ rw (free, move, deduct_points) (refl, refl)
        | inr paid ↦ elim (Option-cases (find_user uid s.users)) [
          | inl gone ↦ rw (paid, gone, move, deduct_points) (refl, refl)
          | inr (row, e) ↦
              rw (paid, e, move, deduct_points)
                (deduct_from-other (max_ℤ (pos 0) amount) usage now row)
        ]
      ]

-- The user is there with a balance that is not unlimited, and the log accounts for the difference
-- from the balance `before` in the store `s`.
abbrev pub Accounted : ℕ → ℤ → Store → Store → Type 0
Accounted uid before s s' =
    (u : User) × (find_user uid s'.users ≡ some u)
    × (pos 0 ≤ℤ u.points_balance)
    × (u.points_balance +ℤ logged uid s.points_log ≡ before +ℤ logged uid s'.points_log)

module _ (uid : ℕ) (s : Store) (u : User) (found : find_user uid s.users ≡ some u)
    (nonneg : pos 0 ≤ℤ u.points_balance) where
  Moved-Accounted :
      (b spent : ℤ) (s' : Store)
      → Moved uid u (max_ℤ (pos 0) b) spent s s'
      → Accounted uid u.points_balance s s'
  Moved-Accounted b spent s' (u', row, balance, paid, log) =
      (u', row, rw balance (floor b), rw (balance, log) (omega int_laws))
    where
      floor : (n : ℤ) → pos 0 ≤ℤ max_ℤ (pos 0) n
      floor n = ground arith

  move-Accounted : (m : Movement) → Accounted uid u.points_balance s (move uid m s)
  unfolding move
  move-Accounted (add d now) =
      Moved-Accounted (u.points_balance +ℤ d) u.points_spent (move uid (add d now) s)
        (add_points-Moved uid s u found nonneg d now)
  move-Accounted (take_off amount usage now) =
      Moved-Accounted (u.points_balance -ℤ max_ℤ (pos 0) amount)
        (u.points_spent +ℤ max_ℤ (pos 0) amount) (move uid (take_off amount usage now) s)
        (deduct_points-Moved uid s u found nonneg amount usage now)

  any_move-Accounted : (j : ℕ) (m : Movement) → Accounted uid u.points_balance s (move j m s)
  any_move-Accounted j m = elim (ℕ_discrete j uid) [
    | yes e ↦ subst (λ k. Accounted uid u.points_balance s (move k m s)) (sym e) (move-Accounted m)
    | no ne ↦ (let (row, log) = move-other j uid s ne m in (u, row ∙ found, nonneg, rw log))
  ]

chain : (a b c x y z : ℤ) → b +ℤ x ≡ a +ℤ y → c +ℤ y ≡ b +ℤ z → c +ℤ x ≡ a +ℤ z
chain a b c x y z h k = omega (int_laws, ap pos_part h, ap neg_part h, ap pos_part k, ap neg_part k)

-- Through any history of additions and deductions, by admins and by requests, for this user and for
-- others, a balance of 0 or more stays so, and it changes by exactly the sum of the user's new log entries.
pub points_accounted :
    (uid : ℕ) (l : List (ℕ × Movement)) (s : Store) (u : User)
    → find_user uid s.users ≡ some u
    → pos 0 ≤ℤ u.points_balance
    → (u' : User) × (find_user uid (moves l s).users ≡ some u')
      × (pos 0 ≤ℤ u'.points_balance)
      × (u'.points_balance +ℤ logged uid s.points_log
          ≡ u.points_balance +ℤ logged uid (moves l s).points_log)
unfolding moves
points_accounted uid [] s u found nonneg = (u, found, nonneg, refl)
points_accounted uid ((j, m) ∷ l) s u found nonneg =
    let (v, row, more, first) = any_move-Accounted uid s u found nonneg j m in
    let (w, last, least, rest) = points_accounted uid l (move j m s) v row more in
    (w, last, least, chain u.points_balance v.points_balance w.points_balance _ _ _ first rest)
