-- ===== src/Proxy/Leaves.antt =====
-- What an answer of `_proxy_call` (unify_llm/app.py) leaves in flight, before a stream is read.
use unify_llm.Prelude.{
  ℕ, suc, ◌+◌, ◌≡◌, refl, false, Option, none, some, List, [], ◌∷◌, arith, leb, Option-cases, inl,
  inr, if_either,
}
use mathlib.Core.Path.{subst}
use unify_llm.Prelude.Dict.{lookup}
use unify_llm.Monitor.{InFlightRequest, ProviderStats, Ended, began}
use unify_llm.Config.{AppConfig}
use unify_llm.Routing.{ResolvedRoute, Registry, resolve}
use unify_llm.Proxy.{
  Request, Rates, Called, answered, unreadable, stopped, failed_with, crashed, Attempt, Upstream,
  OpenStream, Reply, raised, payment_required, error_reply, json_reply, streaming, World, row,
  ended_by, end_attempt, begin_attempt, Verdict, replied, go_on, refused, conclude, attempt_body,
  attempt_once, last_error, try_all, fallbacks, routed, check_points, proxy_call,
}
use unify_llm.Proxy.Rows.{served_active, begun, begun_row, begin_active, before}

-- The stream has not ended, and its row is in flight.
abbrev pub IsOpen : OpenStream → World → Type 0
IsOpen o w =
    (o.ended ≡ false)
    × (st : ProviderStats) × (r : InFlightRequest) × (lookup o.provider_id w.monitor.providers
        ≡ some st)
    × (lookup o.rid st.in_flight ≡ some r)

-- From `n` active requests: one more for an open stream or an exception, and no more for any other
-- answer.
abbrev pub Leaves : ℕ → Reply × World → Type 0
Leaves n (streaming o, w) = IsOpen o w × (w.monitor.active ≡ n + 1)
Leaves n (raised, w) = w.monitor.active ≡ n + 1
Leaves n (payment_required bal, w) = w.monitor.active ≡ n
Leaves n (error_reply status, w) = w.monitor.active ≡ n
Leaves n (json_reply status eff, w) = w.monitor.active ≡ n

abbrev Concludes : ℕ → Verdict × World → Type 0
Concludes n (replied reply, w) = Leaves n (reply, w)
Concludes n (go_on status, w) = w.monitor.active ≡ n

module _ (r : Rates) (q : Request) (rt : ResolvedRoute) (a : Attempt) (w : World) where
  abbrev begun_world : World
  begun_world = begin_attempt q rt a w

  ends : (e : Ended) → (end_attempt rt a e begun_world).monitor.active ≡ w.monitor.active
  ends e = served_active (row q rt a) e a.env w.monitor

  refused-Concludes : (status : ℕ) → Concludes w.monitor.active (refused q rt a status begun_world)
  unfolding refused
  refused-Concludes status =
      ground (arith, ends (ended_by status (some "HTTP error") a.started 0 0 none))

  opened :
      (status : ℕ) (e : Ended)
      → IsOpen
          (record {
            rid = a.rid;
            provider_id = rt.provider_id;
            started = a.started;
            status = status;
            ended = false;
          })
          begun_world
        × (begun_world.monitor.active ≡ w.monitor.active + 1)
  opened status e =
      let x = row q rt a in
      (
        (
          refl,
          began x (before x e a.env w.monitor),
          x,
          begun x e a.env w.monitor,
          begun_row x e a.env w.monitor,
        ),
        begin_active x e a.env w.monitor,
      )

  conclude-Concludes :
      (eff : Option ℕ) (called : Called)
      → Concludes w.monitor.active (conclude r q rt eff a called begun_world)
  unfolding conclude
  conclude-Concludes eff (failed_with status msg) =
      ends (ended_by status (some msg) a.started 0 0 none)
  conclude-Concludes eff (crashed msg) = ends (ended_by 500 (some msg) a.started 0 0 none)
  conclude-Concludes eff stopped = (opened 0 (ended_by 0 none a.started 0 0 none)).1
  conclude-Concludes eff (unreadable status) =
      let e = ended_by status none a.started 0 0 none in
      if_either (Concludes w.monitor.active) (leb 400 status) _ _ (λ h. refused-Concludes status)
        (λ h.
          if_either (Concludes w.monitor.active) q.stream _ _ (λ s. opened status e)
            (λ s. (opened status e).1))
  conclude-Concludes eff (answered status pt ct) =
      if_either (Concludes w.monitor.active) (leb 400 status) _ _ (λ h. refused-Concludes status)
        (λ h.
          if_either (Concludes w.monitor.active) q.stream _ _
            (λ s. opened status (ended_by status none a.started pt ct none))
            (λ s. ends (ended_by status none a.started pt ct none)))

-- What follows a verdict: its answer, or the attempts that are left.
next-Leaves :
    (n : ℕ) (next : ℕ → World → Reply × World)
    → ((status : ℕ) (w : World) → Leaves w.monitor.active (next status w))
    → (v : Verdict × World) → Concludes n v
    → Leaves n (elim v.0 [ replied reply ↦ (reply, v.1) | go_on status ↦ next status v.1 ])
next-Leaves n next h (replied reply, w) k = k
next-Leaves n next h (go_on status, w) k = subst (λ m. Leaves m (next status w)) k (h status w)

module _ (c : AppConfig) (r : Rates) (q : Request) (up : Upstream) where
  attempt_once-Concludes :
      (idx : ℕ) (rt : ResolvedRoute) (w : World)
      → Concludes w.monitor.active (attempt_once c r q up idx rt w)
  unfolding attempt_once
  attempt_once-Concludes idx rt w =
      let b = attempt_body c q rt in
      let a = up idx rt b.0 in conclude-Concludes r q rt a w b.1 a.called

  last_error-Leaves : (err : Option ℕ) (w : World) → Leaves w.monitor.active (last_error err, w)
  last_error-Leaves none w = refl
  last_error-Leaves (some status) w = refl

  try_all-Leaves :
      (idx : ℕ) (err : Option ℕ) (rts : List ResolvedRoute) (w : World)
      → Leaves w.monitor.active (try_all c r q up idx err rts w)
  unfolding try_all
  try_all-Leaves idx err [] w = last_error-Leaves err w
  try_all-Leaves idx err (rt ∷ rts) w =
      next-Leaves w.monitor.active (λ status v. try_all c r q up (suc idx) (some status) rts v)
        (λ status v. try_all-Leaves (suc idx) (some status) rts v) (attempt_once c r q up idx rt w)
        (attempt_once-Concludes idx rt w)

module _ (reg : Registry) (r : Rates) (q : Request) (up : Upstream) (w : World) where
  routed-Leaves : Leaves w.monitor.active (routed reg r q up w)
  unfolding routed
  routed-Leaves = elim (Option-cases (resolve reg q.model)) [
    | inl gone ↦ rw (gone, routed) refl
    | inr (rt, found) ↦
        rw (found, routed)
          (try_all-Leaves reg.config r q up 0 none
            (rt ∷ fallbacks reg reg.config.defaults.fallback_model rt) w)
  ]

  pub proxy_call-Leaves : Leaves w.monitor.active (proxy_call reg r q up w)
  unfolding proxy_call
  proxy_call-Leaves = elim (Option-cases (check_points r q.user_id w.users)) [
    | inl free ↦ rw (free, proxy_call) routed-Leaves
    | inr (bal, blocked) ↦ rw (blocked, proxy_call) refl
  ]
