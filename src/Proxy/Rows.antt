-- ===== src/Proxy/Rows.antt =====
-- The monitor's rows of `_proxy_call` (unify_llm/app.py): each attempt's row is ended, but for a
-- stream that is still open, which ends its row when it stops.
use unify_llm.Prelude.{◌+◌, ◌-◌, ◌≡◌, refl, String, some, arith}
use unify_llm.Prelude.Text.{eq_refl}
use unify_llm.Prelude.Dict.{lookup, lookup-insert}
use unify_llm.Monitor.{
  InFlightRequest, ProviderStats, CompletedRequest, Monitor, Env, Ended, unknown_info, stats_or_new,
  began, begin, add_log, persist, completed, finish, end_at, end,
}

module _ (rid pid : String) (st : ProviderStats) (c : CompletedRequest) (env : Env)
    (m : Monitor) where
  pub finish_active : (finish rid pid st c env m).active ≡ m.active - 1
  unfolding finish persist add_log
  finish_active = ground arith

-- An `end` of what is in flight.
pub ended :
    (rid pid : String) (e : Ended) (env : Env) (m : Monitor) (st : ProviderStats)
    (r : InFlightRequest)
    → lookup pid m.providers ≡ some st
    → lookup rid st.in_flight ≡ some r
    → end rid pid e env m ≡ finish rid pid st (completed e r env m) env m
unfolding end end_at
ended rid pid e env m st r f g = rw (f, end, g, end_at) refl

module _ (r : InFlightRequest) (e : Ended) (env : Env) (m : Monitor) where
  abbrev pub before : ProviderStats
  before = stats_or_new unknown_info (lookup r.provider_id m.providers)

  pub begun : lookup r.provider_id (begin r m).providers ≡ some (began r before)
  unfolding begin add_log
  begun = ground (
    arith,
    lookup-insert r.provider_id r.provider_id (began r before) m.providers,
    eq_refl r.provider_id,
  )

  pub begun_row : lookup r.id (began r before).in_flight ≡ some r
  begun_row = ground (arith, lookup-insert r.id r.id r before.in_flight, eq_refl r.id)

  pub begin_active : (begin r m).active ≡ m.active + 1
  unfolding begin add_log
  begin_active = refl

  abbrev after : Monitor
  after = end r.id r.provider_id e env (begin r m)

  served_is :
      after
      ≡ finish r.id r.provider_id (began r before) (completed e r env (begin r m)) env (begin r m)
  served_is = ended r.id r.provider_id e env (begin r m) (began r before) r begun begun_row

  -- A request that begins and ends leaves the count as it was.
  pub served_active : after.active ≡ m.active
  served_active = rw served_is (
      omega (
        arith,
        begin_active,
        finish_active r.id r.provider_id (began r before) (completed e r env (begin r m)) env
            (begin r m),
      ))
