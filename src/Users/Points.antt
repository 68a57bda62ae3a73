-- ===== src/Users/Points.antt =====
-- The points of unify_llm/users.py: the balance, what has been spent, and the log of movements.
pub mod Ledger
pub mod History
use unify_llm.Prelude.{
  ℕ, ◌+◌, ◌-◌, min, max, String, Bool, true, false, ◌&&◌, not, Option, none, some, List, [], ◌∷◌,
  ◌++◌, keep, take_last, ◌==◌, if◌then◌else◌,
}
use mathlib.Core.List.{reverse}
use unify_llm.Prelude.Int.{ℤ, pos, negsuc, ◌+ℤ◌, ◌-ℤ◌, ltb_ℤ, leb_ℤ, eqb_ℤ, max_ℤ, min_ℤ, pos_part}
use unify_llm.Users.Model.{
  User, Store, PointsEntry, Kind, adjust, deduct, Result, ok, err, bad_balance, find_user,
  update_user,
}

-- `POINTS_UNLIMITED`
abbrev pub unlimited : ℤ
unlimited = negsuc 0

-- `set_points_balance`
unfoldable pub set_points_balance : ℕ → ℤ → Store → Result (Option User) × Store
set_points_balance uid bal s =
    if ltb_ℤ bal (pos 0) && not (eqb_ℤ bal unlimited)
    then (err bad_balance, s)
    else let users = update_user uid (λ u. record u { points_balance = bal }) s.users in
      (ok (find_user uid users), record s { users = users })

-- `MAX(0, points_balance + ?)`
abbrev pub added : ℤ → User → User
added d u = record u { points_balance = max_ℤ (pos 0) (u.points_balance +ℤ d) }

-- `int(row["points_balance"] or 0)` of the row read back, 0 if there is none
abbrev pub balance_of : Option User → ℤ
balance_of none = pos 0
balance_of (some u) = u.points_balance

abbrev log_entry : PointsEntry → Store → Store
log_entry e s = record s { points_log = s.points_log ++ e ∷ [] }

-- `add_points` on the row that it has read
unfoldable pub add_to : ℕ → ℤ → ℕ → User → Store → Option User × Store
add_to uid d now row s =
    if eqb_ℤ row.points_balance unlimited
    then (find_user uid s.users, s)
    else let users = update_user uid (added d) s.users in
      let new_bal = balance_of (find_user uid users) in
      (
        find_user uid users,
        log_entry
            (record {
              user_id = uid;
              delta = new_bal -ℤ max_ℤ (pos 0) row.points_balance;
              balance_after = new_bal;
              kind = adjust;
              note = "admin add_points";
              prompt_tokens = 0;
              completion_tokens = 0;
              created_at = now;
            })
            (record s { users = users }),
      )

-- `add_points`
unfoldable pub add_points : ℕ → ℤ → ℕ → Store → Option User × Store
unfolding add_to
add_points uid d now s = elim (find_user uid s.users) [
  | none ↦ (none, s)
  | some row ↦ add_to uid d now row s
]

-- `points_spent = points_spent + ?`
abbrev pub charged : ℤ → User → User
charged amt u = record u { points_spent = u.points_spent +ℤ amt }

-- `points_spent = points_spent + ?, points_balance = MAX(0, points_balance - ?)`
abbrev pub deducted : ℤ → User → User
deducted amt u = record u {
  points_balance = max_ℤ (pos 0) (u.points_balance -ℤ amt);
  points_spent = u.points_spent +ℤ amt;
}

-- What a deduction is for.
pub record Usage : Type 0 where
  pub prompt_tokens : ℕ
  pub completion_tokens : ℕ
  pub note : String

abbrev deduction : ℕ → ℤ → ℤ → Usage → ℕ → PointsEntry
deduction uid applied new_bal usage now = record {
  user_id = uid;
  delta = pos 0 -ℤ applied;
  balance_after = new_bal;
  kind = deduct;
  note = usage.note;
  prompt_tokens = usage.prompt_tokens;
  completion_tokens = usage.completion_tokens;
  created_at = now;
}

-- `deduct_points` of a positive amount, on the row that it has read
unfoldable pub deduct_from : ℕ → ℤ → Usage → ℕ → User → Store → Option User × Store
deduct_from uid amt usage now row s =
    if eqb_ℤ row.points_balance unlimited
    then (let users = update_user uid (charged amt) s.users in
        (
          find_user uid users,
          log_entry (deduction uid amt unlimited usage now) (record s { users = users }),
        ))
    else let users = update_user uid (deducted amt) s.users in
      (
        find_user uid users,
        log_entry
            (deduction uid (min_ℤ amt (max_ℤ (pos 0) row.points_balance))
              (balance_of (find_user uid users)) usage now)
            (record s { users = users }),
      )

-- `deduct_points`
unfoldable pub deduct_points : ℕ → ℤ → Usage → ℕ → Store → Option User × Store
unfolding deduct_from
deduct_points uid amount usage now s =
    let amt = max_ℤ (pos 0) amount in
    if eqb_ℤ amt (pos 0) then (find_user uid s.users, s) else elim (find_user uid s.users) [
      | none ↦ (none, s)
      | some row ↦ deduct_from uid amt usage now row s
    ]

-- `list_points_log`: the newest entries first, at least one and at most 200 of them
unfoldable pub list_points_log : ℕ → ℤ → Store → List PointsEntry
list_points_log uid limit s =
    reverse
      (take_last (max 1 (min (pos_part limit) 200)) (keep (λ e. e.user_id == uid) s.points_log))
