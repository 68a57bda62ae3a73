-- ===== src/Users/Points/Ledger.antt =====
-- The points log of unify_llm/users.py accounts for every balance that is not unlimited.
use unify_llm.Prelude.{
  ℕ, ◌≡◌, ◌∙◌, ap, refl, false, some, List, [], ◌∷◌, ◌++◌, arith, ◌==◌, if◌then◌else◌, Bool-cases,
  inl, inr,
}
use unify_llm.Prelude.Int.{ℤ, eqb_ℤ, pos, ◌+ℤ◌, ◌-ℤ◌, ◌≤ℤ◌, max_ℤ, min_ℤ, int_laws}
use unify_llm.Users.Model.{User, Store, PointsEntry, find_user, update_user}
use unify_llm.Users.Rows.{find_user-update_user}
use unify_llm.Users.Points.{
  unlimited, added, deducted, Usage, add_to, add_points, deduct_from, deduct_points,
}

-- The sum of one user's logged movements.
abbrev pub logged : ℕ → List PointsEntry → ℤ
logged uid [] = pos 0
logged uid (e ∷ log) = (if e.user_id == uid then e.delta else pos 0) +ℤ logged uid log

pub logged-append_one :
    (uid : ℕ) (log : List PointsEntry) (e : PointsEntry)
    → logged uid (log ++ e ∷ []) ≡ logged uid log +ℤ (if e.user_id == uid then e.delta else pos 0)
logged-append_one uid [] e = omega int_laws
logged-append_one uid (x ∷ log) e = rw (logged-append_one uid log e) (omega int_laws)

floor_nonneg : (b : ℤ) → pos 0 ≤ℤ b → max_ℤ (pos 0) b ≡ b
floor_nonneg b h = ground arith

sub_zero : (b : ℤ) → pos 0 ≤ℤ b → b ≡ max_ℤ (pos 0) (b -ℤ pos 0)
unfolding ◌-ℤ◌
sub_zero b h = ground arith

unchanged : (n b : ℤ) → pos 0 ≤ℤ b → n ≡ n +ℤ (max_ℤ (pos 0) (b -ℤ pos 0) -ℤ b)
unchanged n b h = rw (← sub_zero b h) (omega int_laws)

-- The part of a charge that the balance covers is what the balance loses.
covered_part :
    (b amt : ℤ)
    → pos 0 ≤ℤ b
    → pos 0 ≤ℤ amt
    → pos 0 -ℤ min_ℤ amt (max_ℤ (pos 0) b) ≡ max_ℤ (pos 0) (b -ℤ amt) -ℤ b
unfolding ◌-ℤ◌
covered_part b amt h k = ground arith

-- What a movement of the user's own points leaves behind: the new balance and the new amount spent,
-- and a log that has grown by exactly the change of the balance.
abbrev pub Moved : ℕ → User → ℤ → ℤ → Store → Store → Type 0
Moved uid u balance spent s s' =
    (u' : User) × (find_user uid s'.users ≡ some u')
    × (u'.points_balance ≡ balance)
    × (u'.points_spent ≡ spent)
    × (logged uid s'.points_log ≡ logged uid s.points_log +ℤ (balance -ℤ u.points_balance))

module _ (uid : ℕ) (s : Store) (u : User) (found : find_user uid s.users ≡ some u)
    (nonneg : pos 0 ≤ℤ u.points_balance) where
  finite : eqb_ℤ u.points_balance unlimited ≡ false
  finite = ground arith

  read_back :
      (f : User → User)
      → ((v : User) → (f v).id ≡ v.id)
      → find_user uid (update_user uid f s.users) ≡ some (f u)
  read_back f keeps_id = ground (arith, find_user-update_user f keeps_id uid uid s.users)

  log_grows :
      (e : PointsEntry)
      → e.user_id ≡ uid
      → logged uid (s.points_log ++ e ∷ []) ≡ logged uid s.points_log +ℤ e.delta
  log_grows e same = rw (logged-append_one uid s.points_log e) (ground arith)

  add_to-Moved :
      (d : ℤ) (now : ℕ)
      → Moved uid u
          (max_ℤ (pos 0) (u.points_balance +ℤ d))
          u.points_spent
          s
          (add_to uid d now u s).1
  unfolding add_to
  add_to-Moved d now =
      let back = read_back (added d) (λ v. refl) in
      let balance : ℤ = max_ℤ (pos 0) (u.points_balance +ℤ d) in
      rw finite (
        added d u,
        back,
        refl,
        refl,
        rw back (
            log_grows _ refl
            ∙ ap (λ n. logged uid s.points_log +ℤ (balance -ℤ n))
                (floor_nonneg u.points_balance nonneg)),
      )

  deduct_from-Moved :
      (amt : ℤ) (usage : Usage) (now : ℕ)
      → pos 0 ≤ℤ amt
      → Moved uid u
          (max_ℤ (pos 0) (u.points_balance -ℤ amt))
          (u.points_spent +ℤ amt)
          s
          (deduct_from uid amt usage now u s).1
  unfolding deduct_from
  deduct_from-Moved amt usage now h =
      let back = read_back (deducted amt) (λ v. refl) in
      rw finite (
        deducted amt u,
        back,
        refl,
        refl,
        log_grows _ refl
            ∙ ap (λ n. logged uid s.points_log +ℤ n) (covered_part u.points_balance amt nonneg h),
      )

  -- Adding points to a balance that is not unlimited, with 0 as its floor.
  pub add_points-Moved :
      (d : ℤ) (now : ℕ)
      → Moved uid u
          (max_ℤ (pos 0) (u.points_balance +ℤ d))
          u.points_spent
          s
          (add_points uid d now s).1
  unfolding add_points
  add_points-Moved d now = rw (found, add_points) (add_to-Moved d now)

  -- Deducting points from a user who is there with a balance of 0 or more: a charge below 0 counts as 0, the balance stops at 0, and all of the charge is
  -- counted as spent.
  pub deduct_points-Moved :
      (amount : ℤ) (usage : Usage) (now : ℕ)
      → let amt = max_ℤ (pos 0) amount in
        Moved uid u
          (max_ℤ (pos 0) (u.points_balance -ℤ amt))
          (u.points_spent +ℤ amt)
          s
          (deduct_points uid amount usage now s).1
  unfolding deduct_points
  deduct_points-Moved amount usage now = elim (Bool-cases (eqb_ℤ (max_ℤ (pos 0) amount) (pos 0))) [
    | inl free ↦ rw free (
        let nothing : max_ℤ (pos 0) amount ≡ pos 0 = ground arith in
        (
          u,
          found,
          rw nothing (sub_zero u.points_balance nonneg),
          rw nothing (omega int_laws),
          rw nothing (unchanged (logged uid s.points_log) u.points_balance nonneg),
        ))
    | inr paid ↦
        rw (paid, found, deduct_points)
          (deduct_from-Moved (max_ℤ (pos 0) amount) usage now (ground arith))
  ]
