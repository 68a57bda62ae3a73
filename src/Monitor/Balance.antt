-- ===== src/Monitor/Balance.antt =====
-- The counts of requests in flight that `Monitor` (unify_llm/monitor.py) keeps, over any history of
-- its calls.
use unify_llm.Prelude.{
  ℕ, ◌+◌, String, Bool, true, ◌≡◌, refl, none, some, [], ◌∷◌, arith, length, Option-cases, inl, inr,
}
use unify_llm.Prelude.Dict.{
  Dict, lookup, insert, IsDict, length-erase, sum_by, of_value, sum_by-insert, sum_by-lookup,
  AllValues, AllValues-lookup, AllValues-insert, insert-IsDict, erase-IsDict, contains,
}
use unify_llm.Monitor.{
  InFlightRequest, CompletedRequest, ProviderInfo, ProviderStats, Monitor, Env, Ended, add_log,
  persist, unknown_info, stats_or_new, register_provider, began, begin, ended_stats, finish, end_at,
  completed, end,
}

-- A provider counts the requests of its table, each once.
pub record IsCounted (st : ProviderStats) : Type 0 where
  pub counts : st.active ≡ length st.in_flight
  pub distinct : IsDict st.in_flight

abbrev pub in_flight_count : ProviderStats → ℕ
in_flight_count st = length st.in_flight

pub record IsBalanced (m : Monitor) : Type 0 where
  pub each : AllValues IsCounted m.providers
  pub total : m.active ≡ sum_by in_flight_count m.providers

-- What a call may leave behind: only the providers and the count matter.
same_counts :
    (m m' : Monitor)
    → m'.providers ≡ m.providers
    → m'.active ≡ m.active
    → IsBalanced m
    → IsBalanced m'
same_counts m m' p a b = record { each = rw p b.each; total = rw (p, a) b.total }

pub persist-IsBalanced :
    (f : Bool) (env : Env) (m : Monitor) → IsBalanced m → IsBalanced (persist f env m)
unfolding persist
persist-IsBalanced f env m b = same_counts m (persist f env m) (ground arith) (ground arith) b

-- One provider's statistics are replaced, and the global count moves along.
placed :
    (m m' : Monitor) (pid : String) (st : ProviderStats)
    → m'.providers ≡ insert pid st m.providers
    → m'.active + of_value in_flight_count (lookup pid m.providers) ≡ m.active + length st.in_flight
    → IsCounted st
    → IsBalanced m
    → IsBalanced m'
placed m m' pid st p a c b = record {
  each = rw p (AllValues-insert IsCounted pid st m.providers c b.each);
  total = rw p (omega (arith, a, b.total, sum_by-insert in_flight_count pid st m.providers));
}

known_IsCounted :
    (i : ProviderInfo) (pid : String) (m : Monitor)
    → IsBalanced m
    → IsCounted (stats_or_new i (lookup pid m.providers))
known_IsCounted i pid m b = elim (Option-cases (lookup pid m.providers)) [
  | inl e ↦ rw e (record { counts = refl; distinct = tt })
  | inr (st, e) ↦ rw e (AllValues-lookup IsCounted pid m.providers st b.each e)
]

pub register_provider-IsBalanced :
    (pid : String) (i : ProviderInfo) (m : Monitor)
    → IsBalanced m
    → IsBalanced (register_provider pid i m)
unfolding register_provider
register_provider-IsBalanced pid i m b =
    let st = stats_or_new i (lookup pid m.providers) in
    let c = known_IsCounted i pid m b in
    placed m (register_provider pid i m) pid (record st { info = i }) refl
      (elim (Option-cases (lookup pid m.providers)) [ inl e ↦ rw e refl | inr (s, e) ↦ rw e refl ])
      (record { counts = c.counts; distinct = c.distinct }) b

length-insert_new :
    (k : String) (r : InFlightRequest) (d : Dict InFlightRequest)
    → lookup k d ≡ none
    → length (insert k r d) ≡ length d + 1
unfolding lookup insert
length-insert_new k r [] h = refl
length-insert_new k r ((i, w) ∷ d) h = ground (arith, length-insert_new k r d)

-- The request's id is not in its provider's table.
abbrev pub IsFresh : InFlightRequest → Monitor → Type 0
IsFresh r m =
    lookup r.id (stats_or_new unknown_info (lookup r.provider_id m.providers)).in_flight ≡ none

pub begin-IsBalanced :
    (r : InFlightRequest) (m : Monitor) → IsFresh r m → IsBalanced m → IsBalanced (begin r m)
unfolding begin add_log
begin-IsBalanced r m new b =
    let st = stats_or_new unknown_info (lookup r.provider_id m.providers) in
    let c = known_IsCounted unknown_info r.provider_id m b in
    let one_more = length-insert_new r.id r st.in_flight new in
    placed m (begin r m) r.provider_id (began r st) refl
      (elim (Option-cases (lookup r.provider_id m.providers)) [
        | inl e ↦ ground (arith, e, one_more)
        | inr (s, e) ↦ ground (arith, e, one_more)
      ])
      (record {
        counts = omega (arith, c.counts, one_more);
        distinct = insert-IsDict r.id r st.in_flight c.distinct;
      })
      b

finish-IsBalanced :
    (rid pid : String) (st : ProviderStats) (c : CompletedRequest) (env : Env) (m : Monitor)
    → lookup pid m.providers ≡ some st
    → contains rid st.in_flight ≡ true
    → IsBalanced m
    → IsBalanced (finish rid pid st c env m)
unfolding finish ended_stats add_log persist
finish-IsBalanced rid pid st c env m e known b =
    let counted = AllValues-lookup IsCounted pid m.providers st b.each e in
    let one_less = length-erase rid st.in_flight counted.distinct known in
    placed m (finish rid pid st c env m) pid (ended_stats rid c st) (ground arith)
      (ground (arith, e, one_less, b.total, sum_by-lookup in_flight_count pid m.providers))
      (record {
        counts = omega (arith, counted.counts, one_less);
        distinct = erase-IsDict rid st.in_flight counted.distinct;
      })
      b

-- `end` at a provider that is known, whatever the request.
pub end-IsBalanced :
    (rid pid : String) (e : Ended) (env : Env) (m : Monitor)
    → contains pid m.providers ≡ true
    → IsBalanced m
    → IsBalanced (end rid pid e env m)
unfolding end end_at
end-IsBalanced rid pid e env m known b = elim (Option-cases (lookup pid m.providers)) [
  | inl f ↦ cc (rw f at known)
  | inr (st, f) ↦
      rw (f, end)
        (elim (Option-cases (lookup rid st.in_flight)) [
          | inl g ↦ rw (g, end_at) b
          | inr (r, g) ↦
              rw (g, end_at)
                (finish-IsBalanced rid pid st (completed e r env m) env m f (rw g refl) b)
        ])
]
