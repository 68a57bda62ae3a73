-- ===== src/Proxy/Charges.antt =====
-- Who pays for a call of `_proxy_call` (unify_llm/app.py), and when.
use unify_llm.Prelude.{
  ℕ, suc, ◌<◌, ◌≡◌, refl, ◌⊎◌, Bool, true, false, Option, none, some, List, [], ◌∷◌, arith, leb,
  if◌then◌else◌, Option-cases, inl, inr, if_either,
}
use mathlib.Core.Path.{subst}
use unify_llm.Prelude.Text.{◌+str◌}
use unify_llm.Monitor.{Env}
use unify_llm.Config.{AppConfig}
use unify_llm.Routing.{ResolvedRoute, Registry, resolve}
use unify_llm.Users.Model.{Store}
use unify_llm.Users.Points.{Usage}
use unify_llm.Proxy.{
  Request, Rates, Called, answered, unreadable, stopped, failed_with, crashed, Attempt, Upstream,
  OpenStream, Reply, raised, payment_required, error_reply, json_reply, streaming, World,
  begin_attempt, Verdict, replied, go_on, refused, conclude, attempt_body, usage_of, attempt_once,
  last_error, try_all, fallbacks, routed, check_points, proxy_call, deduct_after_success,
}
use unify_llm.Proxy.Streams.{
  StreamEnd, exhausted, aborted, broke_off, interrupted, never_started, finish_stream, stream_stops,
  closed, end_stream,
}

-- From the store `s`, an answer in JSON with a status below 400 may have been charged, once; any other
-- answer has not been.
abbrev pub IsCharged : Rates → Option ℕ → Store → Reply × World → Type 0
IsCharged r user s (json_reply status eff, w) =
    (w.users ≡ s)
    ⊎ ((status < 400) × (u : Usage) × (now : ℕ) × (w.users ≡ deduct_after_success r user u now s))
IsCharged r user s (raised, w) = w.users ≡ s
IsCharged r user s (payment_required bal, w) = w.users ≡ s
IsCharged r user s (error_reply status, w) = w.users ≡ s
IsCharged r user s (streaming o, w) = w.users ≡ s

abbrev VerdictCharged : Rates → Option ℕ → Store → Verdict × World → Type 0
VerdictCharged r user s (replied reply, w) = IsCharged r user s (reply, w)
VerdictCharged r user s (go_on status, w) = w.users ≡ s

module _ (r : Rates) (q : Request) where
  abbrev Fine : Store → Verdict × World → Type 0
  Fine = VerdictCharged r q.user_id

  module _ (rt : ResolvedRoute) (a : Attempt) (w : World) where
    refused-Fine : (status : ℕ) → Fine w.users (refused q rt a status w)
    unfolding refused
    refused-Fine status = ground arith

    conclude-Fine :
        (eff : Option ℕ) (called : Called) → Fine w.users (conclude r q rt eff a called w)
    unfolding conclude
    conclude-Fine eff (failed_with status msg) = refl
    conclude-Fine eff (crashed msg) = refl
    conclude-Fine eff stopped = refl
    conclude-Fine eff (unreadable status) =
        if_either (Fine w.users) (leb 400 status) _ _ (λ h. refused-Fine status)
          (λ h. if_either (Fine w.users) q.stream _ _ (λ s. refl) (λ s. refl))
    conclude-Fine eff (answered status pt ct) =
        if_either (Fine w.users) (leb 400 status) _ _ (λ h. refused-Fine status)
          (λ h.
            if_either (Fine w.users) q.stream _ _ (λ s. refl)
              (λ s.
                inr
                  (ground arith, usage_of (q.path +str " " +str rt.model) pt ct, a.env.now, refl)))

  next-IsCharged :
      (s : Store) (next : ℕ → World → Reply × World)
      → ((status : ℕ) (w : World) → IsCharged r q.user_id w.users (next status w))
      → (v : Verdict × World) → Fine s v
      → IsCharged r q.user_id s
          (elim v.0 [ replied reply ↦ (reply, v.1) | go_on status ↦ next status v.1 ])
  next-IsCharged s next h (replied reply, w) k = k
  next-IsCharged s next h (go_on status, w) k =
      subst (λ t. IsCharged r q.user_id t (next status w)) k (h status w)

  last_error-IsCharged :
      (err : Option ℕ) (w : World) → IsCharged r q.user_id w.users (last_error err, w)
  last_error-IsCharged none w = refl
  last_error-IsCharged (some status) w = refl

  module _ (c : AppConfig) (up : Upstream) where
    attempt_once-Fine :
        (idx : ℕ) (rt : ResolvedRoute) (w : World) → Fine w.users (attempt_once c r q up idx rt w)
    unfolding attempt_once
    attempt_once-Fine idx rt w =
        let b = attempt_body c q rt in
        let a = up idx rt b.0 in conclude-Fine rt a (begin_attempt q rt a w) b.1 a.called

    try_all-IsCharged :
        (idx : ℕ) (err : Option ℕ) (rts : List ResolvedRoute) (w : World)
        → IsCharged r q.user_id w.users (try_all c r q up idx err rts w)
    unfolding try_all
    try_all-IsCharged idx err [] w = last_error-IsCharged err w
    try_all-IsCharged idx err (rt ∷ rts) w =
        next-IsCharged w.users (λ status v. try_all c r q up (suc idx) (some status) rts v)
          (λ status v. try_all-IsCharged (suc idx) (some status) rts v)
          (attempt_once c r q up idx rt w) (attempt_once-Fine idx rt w)

routed-IsCharged :
    (reg : Registry) (r : Rates) (q : Request) (up : Upstream) (w : World)
    → IsCharged r q.user_id w.users (routed reg r q up w)
unfolding routed
routed-IsCharged reg r q up w = elim (Option-cases (resolve reg q.model)) [
  | inl gone ↦ rw (gone, routed) refl
  | inr (rt, found) ↦
      rw (found, routed)
        (try_all-IsCharged r q reg.config up 0 none
          (rt ∷ fallbacks reg reg.config.defaults.fallback_model rt) w)
]

-- A call leaves the user store alone unless its answer is in JSON with a status below 400, and then the
-- caller is charged at most once, whatever the attempts before have met.
pub proxy_call-IsCharged :
    (reg : Registry) (r : Rates) (q : Request) (up : Upstream) (w : World)
    → IsCharged r q.user_id w.users (proxy_call reg r q up w)
unfolding proxy_call
proxy_call-IsCharged reg r q up w = elim (Option-cases (check_points r q.user_id w.users)) [
  | inl free ↦ rw (free, proxy_call) (routed-IsCharged reg r q up w)
  | inr (bal, blocked) ↦ rw (blocked, proxy_call) refl
]

abbrev pub is_exhausted : StreamEnd → Bool
is_exhausted exhausted = true
is_exhausted _ = false

-- A stream that has not ended is charged once if the upstream has sent all of it, and not at all when
-- the client aborts it, the upstream breaks it off, it is interrupted or it never starts.
pub end_stream-charge :
    (how : StreamEnd) (r : Rates) (user : Option ℕ) (u : Usage) (env : Env) (o : OpenStream)
    (w : World)
    → o.ended ≡ false
    → (end_stream how r user u env (o, w)).1.users
      ≡ (if is_exhausted how then deduct_after_success r user u env.now w.users else w.users)
unfolding end_stream stream_stops closed finish_stream
end_stream-charge exhausted r user u env o w h = rw h refl
end_stream-charge aborted r user u env o w h = rw h refl
end_stream-charge (broke_off msg) r user u env o w h = rw h refl
end_stream-charge interrupted r user u env o w h = rw h refl
end_stream-charge never_started r user u env o w h = refl
