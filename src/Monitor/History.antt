-- ===== src/Monitor/History.antt =====
-- Histories of calls of `Monitor` (unify_llm/monitor.py) and the counts that they lead to.
use unify_llm.Prelude.{
  ℕ, String, true, ◌≡◌, refl, Option, List, [], ◌∷◌, arith, if_either, is_some, ◌||◌,
}
use unify_llm.Prelude.Dict.{Dict, sum_by, AllValues, contains}
use unify_llm.Config.{PricingConfig}
use unify_llm.Monitor.{
  new_monitor, InFlightRequest, ProviderInfo, ProviderStats, Monitor, Env, Ended, persist,
  register_provider, begin, end, clear_providers, clear_stats, flush, sweep_stale, no_totals,
  Totals,
}
use unify_llm.Monitor.Balance.{
  IsCounted, IsBalanced, in_flight_count, end-IsBalanced, persist-IsBalanced, begin-IsBalanced,
  register_provider-IsBalanced, IsFresh,
}
use unify_llm.Monitor.Sweep.{sweep_stale-IsBalanced}

clear_providers_each :
    (ps : Dict ProviderStats) → AllValues IsCounted ps → AllValues IsCounted (clear_providers ps)
unfolding clear_providers
clear_providers_each [] h = tt
clear_providers_each ((pid, st) ∷ ps) h =
    (record { counts = h.0.counts; distinct = h.0.distinct }, clear_providers_each ps h.1)

clear_providers_sum :
    (ps : Dict ProviderStats)
    → sum_by in_flight_count (clear_providers ps) ≡ sum_by in_flight_count ps
unfolding clear_providers
clear_providers_sum [] = refl
clear_providers_sum ((pid, st) ∷ ps) = omega (arith, clear_providers_sum ps)

clear_stats-IsBalanced : (env : Env) (m : Monitor) → IsBalanced m → IsBalanced (clear_stats env m)
unfolding clear_stats
clear_stats-IsBalanced env m b =
    persist-IsBalanced true env
      (record m { totals = no_totals; recent = []; providers = clear_providers m.providers })
      (record {
        each = clear_providers_each m.providers b.each;
        total = omega (arith, b.total, clear_providers_sum m.providers);
      })

flush-IsBalanced : (env : Env) (m : Monitor) → IsBalanced m → IsBalanced (flush env m)
unfolding flush
flush-IsBalanced env m b =
    if_either IsBalanced (m.dirty || is_some m.stored) (persist true env m) m
      (λ e. persist-IsBalanced true env m b) (λ e. b)

-- The calls of `Monitor` that change its counts or write them.
pub data Call : Type 0 where
  register : String → ProviderInfo → Call
  start : InFlightRequest → Call
  ended : String → String → Ended → Env → Call
  sweep : ℕ → Env → Call
  clear : Env → Call
  write : Env → Call

unfoldable pub call : Call → Monitor → Monitor
call (register pid i) m = register_provider pid i m
call (start r) m = begin r m
call (ended rid pid e env) m = end rid pid e env m
call (sweep limit env) m = sweep_stale limit env m
call (clear env) m = clear_stats env m
call (write env) m = flush env m

-- A request begins under an id that its provider does not have in flight, and ends at a provider
-- that is known.
abbrev pub IsAllowed : Call → Monitor → Type 0
IsAllowed (register pid i) m = Unit
IsAllowed (start r) m = IsFresh r m
IsAllowed (ended rid pid e env) m = contains pid m.providers ≡ true
IsAllowed (sweep limit env) m = Unit
IsAllowed (clear env) m = Unit
IsAllowed (write env) m = Unit

pub calls : List Call → Monitor → Monitor
unfolding call
calls [] m = m
calls (c ∷ l) m = calls l (call c m)

unfoldable pub AreAllowed : List Call → Monitor → Type 0
AreAllowed [] m = Unit
AreAllowed (c ∷ l) m = IsAllowed c m × AreAllowed l (call c m)

call-IsBalanced : (c : Call) (m : Monitor) → IsAllowed c m → IsBalanced m → IsBalanced (call c m)
unfolding call
call-IsBalanced (register pid i) m h b = register_provider-IsBalanced pid i m b
call-IsBalanced (start r) m h b = begin-IsBalanced r m h b
call-IsBalanced (ended rid pid e env) m h b = end-IsBalanced rid pid e env m h b
call-IsBalanced (sweep limit env) m h b = sweep_stale-IsBalanced limit env m b
call-IsBalanced (clear env) m h b = clear_stats-IsBalanced env m b
call-IsBalanced (write env) m h b = flush-IsBalanced env m b

calls-IsBalanced :
    (l : List Call) (m : Monitor) → AreAllowed l m → IsBalanced m → IsBalanced (calls l m)
unfolding calls AreAllowed
calls-IsBalanced [] m h b = b
calls-IsBalanced (c ∷ l) m h b = calls-IsBalanced l (call c m) h.1 (call-IsBalanced c m h.0 b)

-- From a new monitor, over any calls that begin fresh requests and end them at known providers, the
-- global count of requests in flight is the sum of the sizes of the providers' tables.
pub in_flight_counted :
    (size interval : ℕ) (pricing : Option PricingConfig) (stored : Option Totals) (env : Env)
    (l : List Call)
    → AreAllowed l (new_monitor size interval pricing stored env)
    → let m = calls l (new_monitor size interval pricing stored env) in
      m.active ≡ sum_by in_flight_count m.providers
unfolding new_monitor
in_flight_counted size interval pricing stored env l h =
    (calls-IsBalanced l (new_monitor size interval pricing stored env) h
      (record { each = tt; total = refl })).total
