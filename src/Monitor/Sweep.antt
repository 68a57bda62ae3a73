-- ===== src/Monitor/Sweep.antt =====
-- `sweep_stale` of unify_llm/monitor.py: the old requests that it ends.
use unify_llm.Prelude.{
  ℕ, String, true, ◌≡◌, List, [], ◌∷◌, arith, Option-cases, inl, inr, if_either, leb, All, All-map,
  All-append,
}
use unify_llm.Prelude.Dict.{Dict, lookup, insert, lookup-insert, contains}
use unify_llm.Prelude.Text.{eq_refl}
use unify_llm.Monitor.{
  InFlightRequest, CompletedRequest, ProviderStats, Monitor, Env, Ended, add_log, persist,
  ended_stats, finish, end_at, completed, end, too_old, victims, swept, end_all, sweep_stale,
}
use unify_llm.Monitor.Balance.{IsBalanced, end-IsBalanced}

finish_keeps :
    (rid pid : String) (st : ProviderStats) (c : CompletedRequest) (env : Env) (m : Monitor)
    → (finish rid pid st c env m).providers ≡ insert pid (ended_stats rid c st) m.providers
unfolding finish persist add_log
finish_keeps rid pid st c env m = ground arith

-- No call of `end` makes a provider unknown.
end-contains :
    (rid pid k : String) (e : Ended) (env : Env) (m : Monitor)
    → contains k m.providers ≡ true
    → contains k (end rid pid e env m).providers ≡ true
unfolding end end_at
end-contains rid pid k e env m h = elim (Option-cases (lookup pid m.providers)) [
  | inl f ↦ rw (f, end) h
  | inr (st, f) ↦
      rw (f, end)
        (elim (Option-cases (lookup rid st.in_flight)) [
          | inl g ↦ rw (g, end_at) h
          | inr (r, g) ↦
              rw (g, end_at, finish_keeps rid pid st (completed e r env m) env m)
                (ground (
                  arith,
                  lookup-insert pid k (ended_stats rid (completed e r env m) st) m.providers,
                ))
        ])
]

-- Each victim's provider is known.
abbrev AreKnown : List (String × (String × ℕ)) → Dict ProviderStats → Type 0
AreKnown l ps = All (λ v. contains v.0 ps ≡ true) l

end_all-IsBalanced :
    (l : List (String × (String × ℕ))) (env : Env) (m : Monitor)
    → AreKnown l m.providers
    → IsBalanced m
    → IsBalanced (end_all l env m)
unfolding end_all
end_all-IsBalanced [] env m k b = b
end_all-IsBalanced ((pid, (rid, started)) ∷ l) env m k b =
    let m' = end rid pid (swept started) env m in
    end_all-IsBalanced l env m'
      (All-map (λ v h. end-contains rid pid v.0 (swept started) env m h) l k.1)
      (end-IsBalanced rid pid (swept started) env m k.0 b)

too_old-AreKnown :
    (limit now : ℕ) (pid : String) (rs : Dict InFlightRequest) (ps : Dict ProviderStats)
    → contains pid ps ≡ true
    → AreKnown (too_old limit now pid rs) ps
unfolding too_old
too_old-AreKnown limit now pid [] ps h = tt
too_old-AreKnown limit now pid ((rid, r) ∷ rs) ps h =
    ground (arith, too_old-AreKnown limit now pid rs ps h)

-- A provider that is known stays known when another is put before the table.
contains-cons :
    (k pid : String) (st : ProviderStats) (ps : Dict ProviderStats)
    → contains k ps ≡ true
    → contains k ((pid, st) ∷ ps) ≡ true
unfolding lookup
contains-cons k pid st ps h = ground arith

contains-head :
    (pid : String) (st : ProviderStats) (ps : Dict ProviderStats)
    → contains pid ((pid, st) ∷ ps) ≡ true
unfolding lookup
contains-head pid st ps = ground (arith, eq_refl pid)

victims-AreKnown : (limit now : ℕ) (ps : Dict ProviderStats) → AreKnown (victims limit now ps) ps
unfolding victims
victims-AreKnown limit now [] = tt
victims-AreKnown limit now ((pid, st) ∷ ps) =
    All-append _ (too_old limit now pid st.in_flight) (victims limit now ps)
      (too_old-AreKnown limit now pid st.in_flight ((pid, st) ∷ ps) (contains-head pid st ps))
      (All-map (λ v h. contains-cons v.0 pid st ps h) (victims limit now ps)
        (victims-AreKnown limit now ps))

pub sweep_stale-IsBalanced :
    (limit : ℕ) (env : Env) (m : Monitor) → IsBalanced m → IsBalanced (sweep_stale limit env m)
unfolding sweep_stale
sweep_stale-IsBalanced limit env m b =
    if_either IsBalanced (leb limit 0) m (end_all (victims limit env.now m.providers) env m)
      (λ e. b)
      (λ e.
        end_all-IsBalanced (victims limit env.now m.providers) env m
          (victims-AreKnown limit env.now m.providers) b)
