-- ===== src/LoginGuard.antt =====
-- `LoginGuard` of unify_llm/app.py: failed logins in a sliding window, by address and by account. Time
-- is in nanoseconds; a lock makes each call one step.
pub mod Lockout
pub mod Checks
pub mod Histories
mod Tests
use unify_llm.Prelude.{
  ℕ, ◌+◌, ◌-◌, ◌*◌, ◌/◌, max, String, Bool, true, false, ◌&&◌, ◌||◌, not, Option, none, some, List,
  [], ◌∷◌, ◌++◌, ltb, leb, ◌==◌, if◌then◌else◌, length,
}
use unify_llm.Prelude.Dict.{Dict, lookup, insert, erase}
use unify_llm.Prelude.Clock.{second}
use unify_llm.Prelude.Text.{is_empty}

-- `LoginLimitConfig`
pub record LoginLimitConfig : Type 0 where
  pub max_failures_per_ip : ℕ
  pub max_failures_per_account : ℕ
  pub window : ℕ
  pub lockout : ℕ

pub record LoginGuard : Type 0 where
  pub max_per_ip : ℕ
  pub max_per_account : ℕ
  pub window : ℕ
  pub lockout : ℕ
  pub ip_hits : Dict (List ℕ)
  pub account_hits : Dict (List ℕ)
  pub ip_locked : Dict ℕ
  pub account_locked : Dict ℕ

-- `update_config`; a time of 0 is replaced by the default
unfoldable pub update_config : LoginLimitConfig → LoginGuard → LoginGuard
update_config c g = record g {
  max_per_ip = c.max_failures_per_ip;
  max_per_account = c.max_failures_per_account;
  window = if c.window == 0 then 60 * second else c.window;
  lockout = if c.lockout == 0 then 30 * second else c.lockout;
}

-- `__init__`
unfoldable pub login_guard : LoginLimitConfig → LoginGuard
unfolding update_config
login_guard c = update_config c (record {
  max_per_ip = 0;
  max_per_account = 0;
  window = 0;
  lockout = 0;
  ip_hits = [];
  account_hits = [];
  ip_locked = [];
  account_locked = [];
})

unfoldable pub enabled : LoginGuard → Bool
enabled g = ltb 0 g.max_per_ip || ltb 0 g.max_per_account

-- `_prune`: the oldest times go while they are out of the window
unfoldable pub prune : ℕ → ℕ → List ℕ → List ℕ
prune window now [] = []
prune window now (t ∷ q) =
    let rest = prune window now q in if ltb (t + window) now then rest else t ∷ q

-- An entry of the `defaultdict`s
abbrev pub hits_of : Option (List ℕ) → List ℕ
hits_of none = []
hits_of (some q) = q

-- `max(1, int(math.ceil(…)))`, in seconds
abbrev pub retry_seconds : ℕ → ℕ
retry_seconds t = max 1 ((t + (second - 1)) / second)

-- A lock that is not over yet, and how long to wait.
unfoldable pub lock_wait : String → ℕ → Dict ℕ → Option ℕ
lock_wait key now locked = if is_empty key then none else elim (lookup key locked) [
  | none ↦ none
  | some until ↦ if ltb now until then some (retry_seconds (until - now)) else none
]

-- (allowed, retry_after)
abbrev pub refusal : ℕ → Bool × ℕ
refusal seconds = (false, seconds)

module _ (lower : String → String) where
  -- `account.lower() if account else ""`
  abbrev pub account_key : String → String
  account_key account = if is_empty account then "" else lower account

  -- The last part of `check`: the failures of the account
  unfoldable pub check_account : String → ℕ → LoginGuard → (Bool × ℕ) × LoginGuard
  unfolding prune
  check_account account now g =
      if ltb 0 g.max_per_account && not (is_empty account)
      then (let key = lower account in
          let q = prune g.window now (hits_of (lookup key g.account_hits)) in
          let g' = record g { account_hits = insert key q g.account_hits } in
          if leb g.max_per_account (length q)
          then (
            refusal (retry_seconds g.lockout),
            record g' { account_locked = insert key (now + g.lockout) g.account_locked },
          )
          else ((true, 0), g'))
      else ((true, 0), g)

  -- Before it, the failures of the address
  unfoldable pub check_ip : String → String → ℕ → LoginGuard → (Bool × ℕ) × LoginGuard
  unfolding prune check_account
  check_ip ip account now g =
      if ltb 0 g.max_per_ip && not (is_empty ip)
      then (let q = prune g.window now (hits_of (lookup ip g.ip_hits)) in
          let g' = record g { ip_hits = insert ip q g.ip_hits } in
          if leb g.max_per_ip (length q)
          then (
            refusal (retry_seconds g.lockout),
            record g' { ip_locked = insert ip (now + g.lockout) g.ip_locked },
          )
          else check_account account now g')
      else check_account account now g

  -- Before it, the locks
  unfoldable pub check_locks : String → String → ℕ → LoginGuard → (Bool × ℕ) × LoginGuard
  unfolding lock_wait check_ip
  check_locks ip account now g = elim (lock_wait ip now g.ip_locked) [
    | some wait ↦ (refusal wait, g)
    | none ↦ (elim (lock_wait (account_key account) now g.account_locked) [
      | some wait ↦ (refusal wait, g)
      | none ↦ check_ip ip account now g
    ])
  ]

  -- `check`
  unfoldable pub check : String → String → ℕ → LoginGuard → (Bool × ℕ) × LoginGuard
  unfolding check_locks enabled
  check ip account now g = if enabled g then check_locks ip account now g else ((true, 0), g)

  -- `q = hits[key]; prune; q.append(now)`, for a key that is not empty
  unfoldable pub add_hit : String → Bool → ℕ → ℕ → Dict (List ℕ) → Dict (List ℕ)
  unfolding prune
  add_hit key blank window now hits =
      if blank
      then hits
      else insert key (prune window now (hits_of (lookup key hits)) ++ now ∷ []) hits

  -- `record_failure`
  unfoldable pub record_failure : String → String → ℕ → LoginGuard → LoginGuard
  unfolding add_hit enabled
  record_failure ip account now g =
      if enabled g
      then record g {
        ip_hits = add_hit ip (is_empty ip) g.window now g.ip_hits;
        account_hits = add_hit (lower account) (is_empty account) g.window now g.account_hits;
      }
      else g

  -- `record_success`
  unfoldable pub record_success : String → LoginGuard → LoginGuard
  record_success account g = if is_empty account then g else record g {
    account_hits = erase (lower account) g.account_hits;
    account_locked = erase (lower account) g.account_locked;
  }

-- `reset`
unfoldable pub reset : LoginGuard → LoginGuard
reset g = record g { ip_hits = []; account_hits = []; ip_locked = []; account_locked = [] }
