-- ===== src/Monitor/Ending.antt =====
-- `end` of unify_llm/monitor.py: each request ends once, and what it cost is added up.
use unify_llm.Prelude.{String, true, ◌≡◌, refl, none, some, arith, Option-cases, inl, inr}
use unify_llm.Prelude.Dict.{lookup-erase, lookup, insert, lookup-insert, contains}
use unify_llm.Prelude.Text.{eq_refl}
use unify_llm.Monitor.{
  CompletedRequest, ProviderStats, Monitor, Env, Ended, add_log, persist, ended_stats, finish,
  end_at, completed, end,
}

finish_providers :
    (rid pid : String) (st : ProviderStats) (c : CompletedRequest) (env : Env) (m : Monitor)
    → (finish rid pid st c env m).providers ≡ insert pid (ended_stats rid c st) m.providers
unfolding finish persist add_log
finish_providers rid pid st c env m = ground arith

module _ (rid pid : String) (env : Env) (m : Monitor) where
  -- A request that its provider does not have in flight is ended by nothing.
  end_absent :
      (st : ProviderStats) (e : Ended)
      → lookup pid m.providers ≡ some st
      → lookup rid st.in_flight ≡ none
      → end rid pid e env m ≡ m
  unfolding end end_at
  end_absent st e f g = rw (f, end, g, end_at) refl

-- Ended once, a request is not in flight at its provider, which stays known.
end_removes :
    (rid pid : String) (e : Ended) (env : Env) (m : Monitor)
    → contains pid m.providers ≡ true
    → (st : ProviderStats) × (lookup pid (end rid pid e env m).providers ≡ some st)
      × (lookup rid st.in_flight ≡ none)
unfolding end end_at ended_stats
end_removes rid pid e env m known = elim (Option-cases (lookup pid m.providers)) [
  | inl f ↦ cc (rw f at known)
  | inr (st, f) ↦
      rw (f, end)
        (elim (Option-cases (lookup rid st.in_flight)) [
          | inl g ↦ rw (g, end_at) (st, f, g)
          | inr (r, g) ↦
              let c = completed e r env m in
              (
                ended_stats rid c st,
                rw (g, end_at, finish_providers rid pid st c env m)
                    (ground (
                      arith,
                      lookup-insert pid pid (ended_stats rid c st) m.providers,
                      eq_refl pid,
                    )),
                ground (arith, lookup-erase rid rid st.in_flight, eq_refl rid),
              )
        ])
]

-- A second `end` of the same request at the same known provider changes nothing, whatever it
-- reports.
pub end_once :
    (rid pid : String) (e e' : Ended) (env env' : Env) (m : Monitor)
    → contains pid m.providers ≡ true
    → end rid pid e' env' (end rid pid e env m) ≡ end rid pid e env m
end_once rid pid e e' env env' m known =
    let (st, f, g) = end_removes rid pid e env m known in
    end_absent rid pid env' (end rid pid e env m) st e' f g
