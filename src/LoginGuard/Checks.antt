-- ===== src/LoginGuard/Checks.antt =====
-- What `LoginGuard.check` of unify_llm/app.py leaves of the failures of an account, whoever is checked.
use unify_llm.Prelude.{
  ℕ, ◌≤◌, ◌≡◌, refl, ap, sym, ◌∙◌, ◌⊎◌, inl, inr, String, Bool, false, List, Option-cases,
  Bool-cases, if_either, arith,
}
use mathlib.Core.Path.{subst}
use unify_llm.Prelude.Dict.{lookup, insert}
use unify_llm.Prelude.Text.{is_empty, str_eq, eq_iff}
use unify_llm.LoginGuard.{
  LoginGuard, check, check_locks, check_ip, check_account, enabled, prune, hits_of, lock_wait,
  account_key,
}
use unify_llm.LoginGuard.Lockout.{
  AreFresh, queue, Recent, insert-queue, earlier_fresh, prune_keeps_end,
}

module _ (lower : String → String) (account : String) (given : is_empty account ≡ false) (now t : ℕ)
    (other : String) where
  abbrev waits : LoginGuard → List ℕ
  waits g = queue lower account given now g

  -- What a check does to its guard: the settings stay, and the account's queue stays or is pruned.
  abbrev Checked : LoginGuard → LoginGuard → Type 0
  Checked g h =
      (h.window ≡ g.window)
      × (h.max_per_account ≡ g.max_per_account)
      × ((waits h ≡ waits g) ⊎ (waits h ≡ prune g.window t (waits g)))

  abbrev After : LoginGuard → (Bool × ℕ) × LoginGuard → Type 0
  After g r = Checked g r.1

  inserted :
      (g : LoginGuard)
      → let q = prune g.window t (hits_of (lookup (lower other) g.account_hits)) in
        let h = record g { account_hits = insert (lower other) q g.account_hits } in
        (waits h ≡ waits g) ⊎ (waits h ≡ prune g.window t (waits g))
  inserted g =
      let q = prune g.window t (hits_of (lookup (lower other) g.account_hits)) in
      elim (Bool-cases (str_eq (lower other) (lower account))) [
        | inl same ↦ inr (
            ground (
              arith,
              same,
              eq_iff (lower other) (lower account),
              insert-queue lower account given now other q g,
            ))
        | inr differs ↦
            inl (ground (arith, differs, insert-queue lower account given now other q g))
      ]

  check_account-Checked : (g : LoginGuard) → Checked g (check_account lower other t g).1
  unfolding check_account
  check_account-Checked g = ground (arith, inserted g)

  check_ip-Checked : (ip : String) (g : LoginGuard) → Checked g (check_ip lower ip other t g).1
  unfolding check_ip
  check_ip-Checked ip g =
      let q = prune g.window t (hits_of (lookup ip g.ip_hits)) in
      ground (
        arith,
        check_account-Checked g,
        check_account-Checked (record g { ip_hits = insert ip q g.ip_hits }),
      )

  check_locks-Checked :
      (ip : String) (g : LoginGuard) → Checked g (check_locks lower ip other t g).1
  unfolding check_locks
  check_locks-Checked ip g = elim (Option-cases (lock_wait ip t g.ip_locked)) [
    | inr (w, e) ↦ rw (e, check_locks) (refl, refl, inl refl)
    | inl e ↦ (elim (Option-cases (lock_wait (account_key lower other) t g.account_locked)) [
      | inr (w, f) ↦ rw (e, f, check_locks) (refl, refl, inl refl)
      | inl f ↦ rw (e, f, check_locks) (check_ip-Checked ip g)
    ])
  ]

  pub check-Checked : (ip : String) (g : LoginGuard) → Checked g (check lower ip other t g).1
  unfolding check
  check-Checked ip g =
      if_either (After g) (enabled g) _ _ (λ _. check_locks-Checked ip g)
        (λ _. (refl, refl, inl refl))

  pub check-Recent :
      (ip : String) (n : ℕ) (g : LoginGuard)
      → t ≤ now
      → Recent lower account given now n g
      → Recent lower account given now n (check lower ip other t g).1
  check-Recent ip n g past (xs, ys, q, many, all) =
      let (same, k, left) = check-Checked ip g in
      let fresh = subst (λ w. AreFresh w now ys) (sym same) all in
      elim left [
        | inl e ↦ (xs, ys, e ∙ q, many, fresh)
        | inr e ↦
            let (rest, kept) =
              prune_keeps_end g.window t xs ys
                (earlier_fresh lower account given now g.window t ys past all) in
            (rest, ys, e ∙ ap (prune g.window t) q ∙ kept, many, fresh)
      ]
