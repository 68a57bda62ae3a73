-- ===== src/Monitor.antt =====
-- `Monitor` of unify_llm/monitor.py: the requests in flight, the counters, the histories, the log ring
-- and the totals that are written to the stats store now and then. A lock makes each call one step.
pub mod Balance
pub mod Sweep
pub mod History
pub mod Ending
mod Tests
use unify_llm.Prelude.{
  ℕ, suc, ◌+◌, ◌-◌, ◌*◌, ◌/◌, ◌^◌, max, String, Bool, true, false, ◌&&◌, ◌||◌, not, Option, none,
  some, List, [], ◌∷◌, ◌++◌, map, ltb, leb, ◌==◌, if◌then◌else◌, is_some, length, take_last, keep,
}
use unify_llm.Prelude.Dict.{Dict, lookup, insert, erase}
use unify_llm.Prelude.Clock.{second}
use unify_llm.Prelude.Text.{is_empty}
use unify_llm.Config.{PricingConfig, ProviderType, rate_for}

-- `InFlightRequest`; what only describes the client is one field.
pub record InFlightRequest : Type 0 where
  pub id : String
  pub provider_id : String
  pub model : String
  pub requested_model : String
  pub protocol : String
  pub path : String
  pub started_at : ℕ
  pub client : List String
  pub user_id : String
  pub username : String

pub data EndStatus : Type 0 where
  succeeded failed cancelled : EndStatus

pub record CompletedRequest : Type 0 where
  pub request : InFlightRequest
  pub status : EndStatus
  pub http_status : ℕ
  pub latency_ms : ℕ
  pub error : Option String
  pub finished_at : ℕ
  pub prompt_tokens : ℕ
  pub completion_tokens : ℕ
  pub cost : ℕ

-- What `register_provider` is told; none for a provider that only `begin` has met.
pub record ProviderInfo : Type 0 where
  pub type : Option ProviderType
  pub base_url : String
  pub enabled : Bool
  pub models : List String

pub record ProviderStats : Type 0 where
  pub info : ProviderInfo
  pub active : ℕ
  pub total : ℕ
  pub errors : ℕ
  pub prompt_tokens : ℕ
  pub completion_tokens : ℕ
  pub cost : ℕ
  -- the error's text, none for the bare status, and when it was
  pub last_error : Option (Option String × (ℕ × ℕ))
  pub in_flight : Dict InFlightRequest
  pub recent : List CompletedRequest

-- The totals that the stats store keeps.
pub record Totals : Type 0 where
  pub requests : ℕ
  pub errors : ℕ
  pub prompt_tokens : ℕ
  pub completion_tokens : ℕ
  pub cost : ℕ

pub data Level : Type 0 where
  info warn error : Level

-- A line of `LogBuffer`: its number, its level and the request that it is about.
pub record LogLine : Type 0 where
  pub seq : ℕ
  pub level : Level
  pub rid : String

pub record Monitor : Type 0 where
  pub totals : Totals
  pub active : ℕ
  pub providers : Dict ProviderStats
  pub recent : List CompletedRequest
  pub history_size : ℕ
  pub pricing : Option PricingConfig
  pub logs : List LogLine
  pub log_seq : ℕ
  -- the stats store, if there is one, and when it was last written
  pub stored : Option Totals
  pub persist_interval : ℕ
  pub last_persist : ℕ
  pub dirty : Bool

-- The clocks that a call reads, and whether the store takes what is written to it.
pub record Env : Type 0 where
  pub now : ℕ
  pub monotonic : ℕ
  pub store_works : Bool

-- `LogBuffer.add`, a ring of 200
unfoldable pub add_log : Level → String → Monitor → Monitor
add_log level rid m = record m {
  log_seq = m.log_seq + 1;
  logs = take_last 200 (m.logs ++ record { seq = m.log_seq + 1; level = level; rid = rid } ∷ []);
}

-- `estimate_cost_usd`, in millionths of the unit of the rates
unfoldable pub estimate_cost : Option PricingConfig → String → String → ℕ → ℕ → ℕ
estimate_cost none model requested pt ct = 0
estimate_cost (some p) model requested pt ct =
    let (input, output) = rate_for (model ∷ requested ∷ []) p in pt * input + ct * output

-- `_persist_locked`
unfoldable pub persist : Bool → Env → Monitor → Monitor
persist force env m = elim m.stored [
  | none ↦ m
  | some old ↦
      (if not force
          && ltb 0 m.persist_interval
          && ltb (env.monotonic - m.last_persist) m.persist_interval
        then record m { dirty = true }
        else if env.store_works
        then record m { stored = some m.totals; last_persist = env.monotonic; dirty = false }
        else record m { dirty = true })
]

abbrev pub unknown_info : ProviderInfo
unknown_info = record { type = none; base_url = ""; enabled = true; models = [] }

abbrev pub new_stats : ProviderInfo → ProviderStats
new_stats i = record {
  info = i;
  active = 0;
  total = 0;
  errors = 0;
  prompt_tokens = 0;
  completion_tokens = 0;
  cost = 0;
  last_error = none;
  in_flight = [];
  recent = [];
}

abbrev pub stats_or_new : ProviderInfo → Option ProviderStats → ProviderStats
stats_or_new i none = new_stats i
stats_or_new i (some st) = st

-- `register_provider`
unfoldable pub register_provider : String → ProviderInfo → Monitor → Monitor
register_provider pid i m = record m {
  providers =
      insert pid (record (stats_or_new i (lookup pid m.providers)) { info = i }) m.providers;
}

abbrev pub began : InFlightRequest → ProviderStats → ProviderStats
began r st = record st { active = st.active + 1; in_flight = insert r.id r st.in_flight }

-- `begin`, with the request's new id in its record
unfoldable pub begin : InFlightRequest → Monitor → Monitor
unfolding add_log
begin r m =
    let st = stats_or_new unknown_info (lookup r.provider_id m.providers) in
    add_log info r.id (record m {
      providers = insert r.provider_id (began r st) m.providers;
      active = m.active + 1;
      totals = record m.totals { requests = m.totals.requests + 1 };
    })

-- The arguments of `end` beside the request and its provider.
pub record Ended : Type 0 where
  pub http_status : ℕ
  pub error : Option String
  pub started_at : Option ℕ
  pub prompt_tokens : ℕ
  pub completion_tokens : ℕ
  pub status : Option EndStatus

-- `"error" if error or http_status >= 400 else "ok"`, unless the caller says; an empty error is none
unfoldable pub end_status : Ended → EndStatus
end_status e = elim e.status [
  | some st ↦ st
  | none ↦
      (if (elim e.error [ none ↦ false | some t ↦ not (is_empty t) ]) || leb 400 e.http_status
        then failed
        else succeeded)
]

abbrev pub is_failed : EndStatus → Bool
is_failed failed = true
is_failed _ = false

unfoldable pub completed : Ended → InFlightRequest → Env → Monitor → CompletedRequest
unfolding end_status estimate_cost
completed e r env m = record {
  request = r;
  status = end_status e;
  http_status = e.http_status;
  latency_ms = (env.now - (elim e.started_at [ none ↦ r.started_at | some t ↦ t ])) / 10 ^ 6;
  error = e.error;
  finished_at = env.now;
  prompt_tokens = e.prompt_tokens;
  completion_tokens = e.completion_tokens;
  cost = estimate_cost m.pricing r.model r.requested_model e.prompt_tokens e.completion_tokens;
}

abbrev one : Bool → ℕ
one b = if b then 1 else 0

-- The provider's counters after a request has ended.
unfoldable pub ended_stats : String → CompletedRequest → ProviderStats → ProviderStats
ended_stats rid c st = record st {
  in_flight = erase rid st.in_flight;
  active = st.active - 1;
  total = st.total + 1;
  errors = st.errors + one (is_failed c.status);
  prompt_tokens = st.prompt_tokens + c.prompt_tokens;
  completion_tokens = st.completion_tokens + c.completion_tokens;
  cost = st.cost + c.cost;
  last_error =
      if is_failed c.status then some (c.error, (c.http_status, c.finished_at)) else st.last_error;
  recent = take_last 80 (st.recent ++ c ∷ []);
}

unfoldable pub ended_totals : CompletedRequest → Totals → Totals
ended_totals c t = record t {
  errors = t.errors + one (is_failed c.status);
  prompt_tokens = t.prompt_tokens + c.prompt_tokens;
  completion_tokens = t.completion_tokens + c.completion_tokens;
  cost = t.cost + c.cost;
}

abbrev pub level_of : EndStatus → Level
level_of cancelled = warn
level_of failed = error
level_of succeeded = info

-- `end` of a request that is in flight
unfoldable pub finish : String → String → ProviderStats → CompletedRequest → Env → Monitor → Monitor
unfolding ended_stats ended_totals persist add_log
finish rid pid st c env m = add_log (level_of c.status) rid (
    persist false env (record m {
      providers = insert pid (ended_stats rid c st) m.providers;
      totals = ended_totals c m.totals;
      recent = take_last m.history_size (m.recent ++ c ∷ []);
      active = m.active - 1;
    }))

-- `end` at a known provider: a request that has ended already is left alone.
unfoldable pub end_at : String → String → Ended → Env → ProviderStats → Monitor → Monitor
unfolding finish completed
end_at rid pid e env st m = elim (lookup rid st.in_flight) [
  | none ↦ m
  | some r ↦ finish rid pid st (completed e r env m) env m
]

-- `end`
unfoldable pub end : String → String → Ended → Env → Monitor → Monitor
unfolding end_at
end rid pid e env m = elim (lookup pid m.providers) [
  | none ↦ record m { active = m.active - 1 }
  | some st ↦ end_at rid pid e env st m
]

abbrev cleared_stats : ProviderStats → ProviderStats
cleared_stats st = record st {
  total = 0;
  errors = 0;
  prompt_tokens = 0;
  completion_tokens = 0;
  cost = 0;
  recent = [];
  last_error = none;
}

abbrev pub no_totals : Totals
no_totals = record { requests = 0; errors = 0; prompt_tokens = 0; completion_tokens = 0; cost = 0 }

unfoldable pub clear_providers : Dict ProviderStats → Dict ProviderStats
clear_providers [] = []
clear_providers ((pid, st) ∷ ps) = (pid, cleared_stats st) ∷ clear_providers ps

-- `__init__` with `_load_persisted`: a store that cannot be read leaves the totals at 0.
unfoldable pub new_monitor : ℕ → ℕ → Option PricingConfig → Option Totals → Env → Monitor
new_monitor history_size interval pricing stored env = record {
  totals = elim stored [ none ↦ no_totals | some t ↦ if env.store_works then t else no_totals ];
  active = 0;
  providers = [];
  recent = [];
  history_size = history_size;
  pricing = pricing;
  logs = [];
  log_seq = 0;
  stored = stored;
  persist_interval = interval;
  last_persist = env.monotonic;
  dirty = false;
}

-- `clear_stats`
unfoldable pub clear_stats : Env → Monitor → Monitor
unfolding clear_providers persist
clear_stats env m =
    persist true env
      (record m { totals = no_totals; recent = []; providers = clear_providers m.providers })

-- `flush`
unfoldable pub flush : Env → Monitor → Monitor
unfolding persist
flush env m = if m.dirty || is_some m.stored then persist true env m else m

-- What `sweep_stale` finds too old among the requests of one provider, each with its start.
unfoldable pub too_old : ℕ → ℕ → String → Dict InFlightRequest → List (String × (String × ℕ))
too_old limit now pid [] = []
too_old limit now pid ((rid, r) ∷ rs) =
    let rest = too_old limit now pid rs in
    if leb (r.started_at + limit) now then (pid, (rid, r.started_at)) ∷ rest else rest

-- The victims of `sweep_stale`.
unfoldable pub victims : ℕ → ℕ → Dict ProviderStats → List (String × (String × ℕ))
unfolding too_old
victims limit now [] = []
victims limit now ((pid, st) ∷ ps) = too_old limit now pid st.in_flight ++ victims limit now ps

abbrev pub swept : ℕ → Ended
swept started = record {
  http_status = 499;
  error = some "swept stale in-flight";
  started_at = some started;
  prompt_tokens = 0;
  completion_tokens = 0;
  status = some cancelled;
}

unfoldable pub end_all : List (String × (String × ℕ)) → Env → Monitor → Monitor
unfolding end
end_all [] env m = m
end_all ((pid, (rid, started)) ∷ l) env m = end_all l env (end rid pid (swept started) env m)

-- `sweep_stale`; a limit of 0 turns it off
unfoldable pub sweep_stale : ℕ → Env → Monitor → Monitor
unfolding victims end_all
sweep_stale limit env m =
    if leb limit 0 then m else end_all (victims limit env.now m.providers) env m
