-- ===== src/Proxy.antt =====
-- `_proxy_call` of unify_llm/app.py: the points gate, the route and its fallback, the attempts with
-- their monitor rows, the charge, and the end of a streamed answer. What the upstream does with an
-- attempt is an argument, as are the new request ids and the clocks.
pub mod Streams
pub mod Rows
pub mod Leaves
pub mod Lifecycle
pub mod Charges
mod Tests
use unify_llm.Prelude.{
  ℕ, zero, suc, ◌+◌, ◌*◌, ◌/◌, ◌^◌, String, Bool, true, false, ◌&&◌, ◌||◌, not, Option, none, some,
  List, [], ◌∷◌, ltb, leb, ◌==◌, if◌then◌else◌,
}
use unify_llm.Prelude.Int.{ℤ, pos, eqb_ℤ, leb_ℤ}
use unify_llm.Prelude.Text.{◌+str◌, str_eq, is_empty}
use unify_llm.Config.{AppConfig, resolve_max_output_tokens}
use unify_llm.Routing.{ResolvedRoute, Registry, resolve}
use unify_llm.MaxTokens.{Body, default_max_tokens, with_max, apply_max_tokens_policy}
use unify_llm.Monitor.{InFlightRequest, Monitor, Env, Ended, EndStatus, cancelled, begin, end}
use unify_llm.Users.Model.{Store, find_user}
use unify_llm.Users.Points.{unlimited, Usage, deduct_points}

pub data Protocol : Type 0 where
  openai_api anthropic_api : Protocol

-- Points for each thousand tokens, in millionths of a point.
pub record Rates : Type 0 where
  pub prompt : ℕ
  pub completion : ℕ

-- What a call of `_proxy_call` is about. `user_id` is the number in `user`, none for a caller with the
-- master key or in open mode.
pub record Request : Type 0 where
  pub protocol : Protocol
  pub path : String
  pub model : String
  pub stream : Bool
  pub body : Body
  pub user : String
  pub user_id : Option ℕ
  pub username : String
  pub client : List String

-- What becomes of an attempt from its row on: an answer with a status and the usage in its body, an
-- answer whose usage makes `extract_usage` raise, an `UpstreamError`, another exception of the call, or
-- a stop outside of the loop's `try`: an exception of `create_adapter` or `apply_max_tokens_policy`, or
-- a cancellation before the row is ended.
pub data Called : Type 0 where
  answered : ℕ → ℕ → ℕ → Called
  unreadable : ℕ → Called
  stopped : Called
  failed_with : ℕ → String → Called
  crashed : String → Called

-- One attempt: the new row's id, its start, what came back, and the clocks at its end.
pub record Attempt : Type 0 where
  pub rid : String
  pub started : ℕ
  pub called : Called
  pub env : Env

abbrev pub Upstream : Type 0
Upstream = ℕ → ResolvedRoute → Body → Attempt

-- A stream that is open: what its generator needs at its end.
pub record OpenStream : Type 0 where
  pub rid : String
  pub provider_id : String
  pub started : ℕ
  pub status : ℕ
  pub ended : Bool

-- `raised` is an exception that leaves `_proxy_call`.
pub data Reply : Type 0 where
  raised : Reply
  payment_required : ℤ → Reply
  error_reply : ℕ → Reply
  json_reply : ℕ → Option ℕ → Reply
  streaming : OpenStream → Reply

pub record World : Type 0 where
  pub monitor : Monitor
  pub users : Store

-- `compute_points_cost`, with exact products where the source has floats: next to a whole number the
-- source's floor may differ from it by one.
unfoldable pub compute_points_cost : ℕ → ℕ → Rates → ℕ
compute_points_cost pt ct r =
    if leb r.prompt 0 && leb r.completion 0
    then 0
    else pt * r.prompt / 10 ^ 9 + ct * r.completion / 10 ^ 9

-- `points_charging_enabled`
abbrev pub charging : Rates → Bool
charging r = ltb 0 r.prompt || ltb 0 r.completion

-- `_check_points_before_upstream` at the caller's row
unfoldable pub blocked_balance : ℤ → Option ℤ
blocked_balance bal =
    if eqb_ℤ bal unlimited then none else if leb_ℤ bal (pos 0) then some bal else none

-- `_check_points_before_upstream`: the balance of a caller who is turned away
unfoldable pub check_points : Rates → Option ℕ → Store → Option ℤ
unfolding blocked_balance
check_points r none s = none
check_points r (some uid) s =
    if charging r
    then elim (find_user uid s.users) [ none ↦ none | some u ↦ blocked_balance u.points_balance ]
    else none

-- `_deduct_points_after_success`
unfoldable pub deduct_after_success : Rates → Option ℕ → Usage → ℕ → Store → Store
unfolding compute_points_cost
deduct_after_success r none usage now s = s
deduct_after_success r (some uid) usage now s =
    let cost = compute_points_cost usage.prompt_tokens usage.completion_tokens r in
    if leb cost 0 then s else (deduct_points uid (pos cost) usage now s).1

-- `attempts`: the route, and the fallback model's if that is another one
abbrev pub alternative : ResolvedRoute → Option ResolvedRoute → List ResolvedRoute
alternative rt none = []
alternative rt (some alt) =
    if not (str_eq alt.provider_id rt.provider_id) || not (str_eq alt.model rt.model)
    then alt ∷ []
    else []

unfoldable pub fallbacks : Registry → Option String → ResolvedRoute → List ResolvedRoute
fallbacks reg none rt = []
fallbacks reg (some fb) rt =
    if is_empty fb || str_eq fb rt.requested_model || str_eq fb rt.model
    then []
    else alternative rt (resolve reg fb)

-- `attempt_body["max_tokens"] = int(effective_max or DEFAULT_MAX_TOKENS)` where it is missing
abbrev pub or_default : Option ℕ → ℕ
or_default none = default_max_tokens
or_default (some n) = if n == 0 then default_max_tokens else n

unfoldable pub with_default : Protocol → Body × Option ℕ → Body × Option ℕ
with_default openai_api (b, effective) = (b, effective)
with_default anthropic_api (b, effective) =
    (elim b.max_tokens [ none ↦ with_max (or_default effective) b | some v ↦ b ], effective)

-- The body of one attempt and the effective limit.
unfoldable pub attempt_body : AppConfig → Request → ResolvedRoute → Body × Option ℕ
unfolding with_default
attempt_body c q rt = with_default q.protocol (
    apply_max_tokens_policy (resolve_max_output_tokens (rt.model ∷ rt.requested_model ∷ []) c)
      c.defaults.raise_max_tokens_to_model_limit q.body)

-- The monitor's row of an attempt.
abbrev pub row : Request → ResolvedRoute → Attempt → InFlightRequest
row q rt a = record {
  id = a.rid;
  provider_id = rt.provider_id;
  model = rt.model;
  requested_model = rt.requested_model;
  protocol = elim q.protocol [ openai_api ↦ "openai" | anthropic_api ↦ "anthropic" ];
  path = q.path;
  started_at = a.started;
  client = q.client;
  user_id = q.user;
  username = q.username;
}

abbrev pub ended_by : ℕ → Option String → ℕ → ℕ → ℕ → Option EndStatus → Ended
ended_by status error started pt ct label = record {
  http_status = status;
  error = error;
  started_at = some started;
  prompt_tokens = pt;
  completion_tokens = ct;
  status = label;
}

-- `state.monitor.end` of this attempt
abbrev pub end_attempt : ResolvedRoute → Attempt → Ended → World → World
end_attempt rt a e w = record w { monitor = end a.rid rt.provider_id e a.env w.monitor }

-- After an attempt: an answer to the client, or the status of `last_err`
pub data Verdict : Type 0 where
  replied : Reply → Verdict
  go_on : ℕ → Verdict

-- A status at which the next attempt is made.
abbrev pub is_hard : ℕ → Bool
is_hard status = leb 500 status || status == 408 || status == 429

abbrev pub usage_of : String → ℕ → ℕ → Usage
usage_of note pt ct = record { prompt_tokens = pt; completion_tokens = ct; note = note }

-- A status of 400 or more, with and without a stream; the row's error is `HTTP` and the status.
unfoldable pub refused : Request → ResolvedRoute → Attempt → ℕ → World → Verdict × World
refused q rt a status w =
    let w' = end_attempt rt a (ended_by status (some "HTTP error") a.started 0 0 none) w in
    if is_hard status
    then (go_on status, w')
    else (replied (if q.stream then error_reply status else json_reply status none), w')

-- What an attempt's answer leads to, in a world with its row.
unfoldable pub conclude :
    Rates → Request → ResolvedRoute → Option ℕ → Attempt → Called → World → Verdict × World
unfolding refused deduct_after_success
conclude r q rt eff a (failed_with status msg) w =
    (go_on status, end_attempt rt a (ended_by status (some msg) a.started 0 0 none) w)
conclude r q rt eff a (crashed msg) w =
    (go_on 500, end_attempt rt a (ended_by 500 (some msg) a.started 0 0 none) w)
conclude r q rt eff a stopped w = (replied raised, w)
conclude r q rt eff a (unreadable status) w =
    if leb 400 status
    then refused q rt a status w
    else if q.stream
    then (
      replied (
          streaming (record {
            rid = a.rid;
            provider_id = rt.provider_id;
            started = a.started;
            status = status;
            ended = false;
          })),
      w,
    )
    else (replied raised, w)
conclude r q rt eff a (answered status pt ct) w =
    if leb 400 status
    then refused q rt a status w
    else if q.stream
    then (
      replied (
          streaming (record {
            rid = a.rid;
            provider_id = rt.provider_id;
            started = a.started;
            status = status;
            ended = false;
          })),
      w,
    )
    else (
      replied (json_reply status eff),
      record (end_attempt rt a (ended_by status none a.started pt ct none) w) {
        users =
            deduct_after_success r q.user_id (usage_of (q.path +str " " +str rt.model) pt ct)
              a.env.now w.users;
      },
    )

-- `state.monitor.begin` of this attempt
abbrev pub begin_attempt : Request → ResolvedRoute → Attempt → World → World
begin_attempt q rt a w = record w { monitor = begin (row q rt a) w.monitor }

-- One round of the loop over `attempts`
unfoldable pub attempt_once :
    AppConfig → Rates → Request → Upstream → ℕ → ResolvedRoute → World → Verdict × World
unfolding conclude attempt_body
attempt_once c r q up idx rt w =
    let (body, eff) = attempt_body c q rt in
    let a = up idx rt body in conclude r q rt eff a a.called (begin_attempt q rt a w)

abbrev pub last_error : Option ℕ → Reply
last_error none = error_reply 503
last_error (some status) = error_reply status

-- The loop over `attempts`, from `last_err`
unfoldable pub try_all :
    AppConfig
    → Rates
    → Request
    → Upstream
    → ℕ
    → Option ℕ
    → List ResolvedRoute
    → World
    → Reply × World
unfolding attempt_once
try_all c r q up idx err [] w = (last_error err, w)
try_all c r q up idx err (rt ∷ rts) w =
    let (v, w') = attempt_once c r q up idx rt w in
    elim v [
      | replied reply ↦ (reply, w')
      | go_on status ↦ try_all c r q up (suc idx) (some status) rts w'
    ]

-- `_proxy_call` of a caller who may go on
unfoldable pub routed : Registry → Rates → Request → Upstream → World → Reply × World
unfolding try_all fallbacks
routed reg r q up w = elim (resolve reg q.model) [
  | none ↦ (error_reply 404, w)
  | some rt ↦
      try_all reg.config r q up 0 none (rt ∷ fallbacks reg reg.config.defaults.fallback_model rt) w
]

-- `_proxy_call`
unfoldable pub proxy_call : Registry → Rates → Request → Upstream → World → Reply × World
unfolding routed check_points
proxy_call reg r q up w = elim (check_points r q.user_id w.users) [
  | some bal ↦ (payment_required bal, w)
  | none ↦ routed reg r q up w
]
