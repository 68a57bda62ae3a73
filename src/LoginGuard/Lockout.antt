-- ===== src/LoginGuard/Lockout.antt =====
-- Guessing the password of one account under `LoginGuard` (unify_llm/app.py).
use unify_llm.Prelude.{
  ℕ, ◌+◌, ◌≤◌, ◌<◌, ◌≡◌, refl, String, Bool, true, false, not, ◌&&◌, if◌then◌else◌, List, [], ◌∷◌,
  ◌++◌, arith, ltb, length, length-append, All, Bool-cases, inl, inr, ap, sym, ◌∙◌, All-append,
}
use mathlib.Core.Path.{subst}
use unify_llm.Prelude.Dict.{lookup, insert, lookup-insert, lookup-erase}
use unify_llm.Prelude.Text.{is_empty, str_eq, eq_iff}
use unify_llm.LoginGuard.{
  LoginGuard, enabled, prune, hits_of, check_account, check_ip, check_locks, check, add_hit,
  record_failure, record_success,
}

-- The times are in the window of `now`.
abbrev pub AreFresh : ℕ → ℕ → List ℕ → Type 0
AreFresh window now q = All (λ t. now ≤ t + window) q

-- Pruning a queue whose end is fresh keeps that end.
length-prune_end :
    (window now : ℕ) (xs ys : List ℕ)
    → AreFresh window now ys
    → length ys ≤ length (prune window now (xs ++ ys))
unfolding prune
length-prune_end window now [] [] h = omega arith
length-prune_end window now [] (y ∷ ys) h = ground arith
length-prune_end window now (x ∷ xs) ys h =
    ground (arith, length-prune_end window now xs ys h, length-append xs ys)

append_assoc {ℓ} : {A : Type ℓ} (xs ys zs : List A) → (xs ++ ys) ++ zs ≡ xs ++ (ys ++ zs)
append_assoc [] ys zs = refl
append_assoc (x ∷ xs) ys zs = ap (λ l. x ∷ l) (append_assoc xs ys zs)

pub prune_keeps_end :
    (window now : ℕ) (xs ys : List ℕ)
    → AreFresh window now ys
    → (rest : List ℕ) × (prune window now (xs ++ ys) ≡ rest ++ ys)
unfolding prune
prune_keeps_end window now [] [] h = ([], refl)
prune_keeps_end window now [] (y ∷ ys) h = ([], ground arith)
prune_keeps_end window now (x ∷ xs) ys h = elim (Bool-cases (ltb (x + window) now)) [
  | inl old ↦ (let found = prune_keeps_end window now xs ys h in (found.0, rw (old, prune) found.1))
  | inr kept ↦ (x ∷ xs, rw (kept, prune) refl)
]

-- The text `a` is counted with the failures of the account.
abbrev pub is_account : (String → String) → String → String → Bool
is_account lower account a = not (is_empty a) && str_eq (lower a) (lower account)

module _ (lower : String → String) (account : String) (given : is_empty account ≡ false)
    (now : ℕ) where
  abbrev pub queue : LoginGuard → List ℕ
  queue g = hits_of (lookup (lower account) g.account_hits)

  -- The account's queue ends with at least `n` times in the window of `now`.
  abbrev pub Recent : ℕ → LoginGuard → Type 0
  Recent n g =
      (xs : List ℕ) × (ys : List ℕ) × (queue g ≡ xs ++ ys)
      × (n ≤ length ys)
      × AreFresh g.window now ys

  pub earlier_fresh :
      (window t : ℕ) (ys : List ℕ) → t ≤ now → AreFresh window now ys → AreFresh window t ys
  earlier_fresh window t [] h k = tt
  earlier_fresh window t (y ∷ ys) h k = (omega (arith, k.0), earlier_fresh window t ys h k.1)

  pub insert-queue :
      (a : String) (q : List ℕ) (g : LoginGuard)
      → hits_of (lookup (lower account) (insert (lower a) q g.account_hits))
        ≡ (if str_eq (lower a) (lower account) then q else queue g)
  insert-queue a q g = ground (arith, lookup-insert (lower a) (lower account) q g.account_hits)

  record_failure-queue :
      (ip a : String) (t : ℕ) (g : LoginGuard)
      → is_account lower account a ≡ true
      → 0 < g.max_per_account
      → queue (record_failure lower ip a t g) ≡ prune g.window t (queue g) ++ t ∷ []
  unfolding record_failure enabled add_hit
  record_failure-queue ip a t g same on = ground (
    arith,
    same,
    eq_iff (lower a) (lower account),
    insert-queue a (prune g.window t (hits_of (lookup (lower a) g.account_hits)) ++ t ∷ []) g,
  )

  pub record_failure-other :
      (ip a : String) (t : ℕ) (g : LoginGuard)
      → is_account lower account a ≡ false
      → queue (record_failure lower ip a t g) ≡ queue g
  unfolding record_failure enabled add_hit
  record_failure-other ip a t g differs = ground (
    arith,
    differs,
    insert-queue a (prune g.window t (hits_of (lookup (lower a) g.account_hits)) ++ t ∷ []) g,
  )

  pub record_success-other :
      (a : String) (g : LoginGuard)
      → is_account lower account a ≡ false
      → (queue (record_success lower a g) ≡ queue g)
        × ((record_success lower a g).window ≡ g.window)
        × ((record_success lower a g).max_per_account ≡ g.max_per_account)
  unfolding record_success
  record_success-other a g differs =
      ground (arith, differs, lookup-erase (lower a) (lower account) g.account_hits)

  -- A guard with the same queue and window
  pub same-Recent :
      (m n : ℕ) (g h : LoginGuard)
      → m ≤ n
      → queue h ≡ queue g
      → h.window ≡ g.window
      → Recent n g
      → Recent m h
  same-Recent m n g h fewer q w (xs, ys, e, many, all) =
      (xs, ys, q ∙ e, omega (arith, fewer, many), subst (λ v. AreFresh v now ys) (sym w) all)

  pub record_failure-keeps :
      (ip a : String) (t : ℕ) (g : LoginGuard)
      → ((record_failure lower ip a t g).window ≡ g.window)
        × ((record_failure lower ip a t g).max_per_account ≡ g.max_per_account)
  unfolding record_failure
  record_failure-keeps ip a t g = ground arith

  pub record_failure-Recent :
      (ip a : String) (t n : ℕ) (g : LoginGuard)
      → is_account lower account a ≡ true
      → 0 < g.max_per_account
      → t ≤ now
      → now ≤ t + g.window
      → Recent n g
      → Recent (n + 1) (record_failure lower ip a t g)
  record_failure-Recent ip a t n g same on past fresh (xs, ys, q, many, all) =
      let (rest, kept) = prune_keeps_end g.window t xs ys (earlier_fresh g.window t ys past all) in
      (
        rest,
        ys ++ t ∷ [],
        record_failure-queue ip a t g same on ∙ rw (q, kept) (append_assoc rest ys (t ∷ [])),
        omega (arith, many, length-append ys (t ∷ [])),
        rw (record_failure-keeps ip a t g).0 (All-append _ ys (t ∷ []) all (fresh, tt)),
      )

  check_account_denies :
      (n : ℕ) (g : LoginGuard)
      → 0 < g.max_per_account
      → g.max_per_account ≤ n
      → Recent n g
      → (check_account lower account now g).0.0 ≡ false
  unfolding check_account
  check_account_denies n g on few (xs, ys, q, many, all) =
      let long = length-prune_end g.window now xs ys all in rw q (ground (arith, given, long, many))

  check_ip_denies :
      (ip : String) (n : ℕ) (g : LoginGuard)
      → 0 < g.max_per_account
      → g.max_per_account ≤ n
      → Recent n g
      → (check_ip lower ip account now g).0.0 ≡ false
  unfolding check_ip
  check_ip_denies ip n g on few recent =
      let q = prune g.window now (hits_of (lookup ip g.ip_hits)) in
      ground (
        arith,
        check_account_denies n g on few recent,
        check_account_denies n (record g { ip_hits = insert ip q g.ip_hits }) on few recent,
      )

  pub check_denies :
      (ip : String) (n : ℕ) (g : LoginGuard)
      → 0 < g.max_per_account
      → g.max_per_account ≤ n
      → Recent n g
      → (check lower ip account now g).0.0 ≡ false
  unfolding check check_locks enabled
  check_denies ip n g on few recent = ground (arith, check_ip_denies ip n g on few recent)
