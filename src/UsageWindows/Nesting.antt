-- ===== src/UsageWindows/Nesting.antt =====
-- The windows of `aggregate_windows` (unify_llm/usage_windows.py) lie in one another.
use unify_llm.Prelude.{ℕ, ◌≤◌, ◌≡◌, ◌∙◌, Option, none, List, [], ◌∷◌, keep, arith}
use unify_llm.Monitor.{CompletedRequest}
use unify_llm.UsageWindows.{
  Span, last_1h, last_24h, last_7d, Usage, finalize, Rates, Windows, is_for, is_within, add_item,
  add_items, empty_windows, window_points, override_lifetime,
}
use unify_llm.UsageWindows.Series.{logged_points, points_of, Query, aggregate_windows}
use unify_llm.UsageWindows.Counters.{Counter, count, count-add, count-finalize, count-window_points}

-- Each window counts no more than the next longer one.
abbrev pub Nested : Counter → Windows Usage → Type 0
Nested c w =
    (count c (w.last last_1h) ≤ count c (w.last last_24h))
    × (count c (w.last last_24h) ≤ count c (w.last last_7d))
    × (count c (w.last last_7d) ≤ count c w.lifetime)

add_item-Nested :
    (c : Counter) (now : ℕ) (item : CompletedRequest) (w : Windows Usage)
    → Nested c w
    → Nested c (add_item now item w)
unfolding add_item is_within
add_item-Nested c now item w h = ground (
  arith,
  h.0,
  h.1,
  h.2,
  count-add c item (w.last last_1h),
  count-add c item (w.last last_24h),
  count-add c item (w.last last_7d),
  count-add c item w.lifetime,
)

add_items-Nested :
    (c : Counter) (now : ℕ) (items : List CompletedRequest) (w : Windows Usage)
    → Nested c w
    → Nested c (add_items now items w)
unfolding add_items
add_items-Nested c now [] w h = h
add_items-Nested c now (item ∷ items) w h =
    add_items-Nested c now items (add_item now item w) (add_item-Nested c now item w h)

Nested-finished :
    (c : Counter) (r : Rates) (spent : Option ℕ) (spent_in : Span → Option ℕ) (w : Windows Usage)
    → Nested c w
    → Nested c (record {
      lifetime = finalize (window_points r spent w.lifetime);
      last = λ k. finalize (window_points r (spent_in k) (w.last k));
    })
Nested-finished c r spent spent_in w h =
    let kept : (o : Option ℕ) (u : Usage) → count c (finalize (window_points r o u)) ≡ count c u =
      λ o u. count-finalize c (window_points r o u) ∙ count-window_points c r o u in
    omega (
      arith,
      h.0,
      h.1,
      h.2,
      kept spent w.lifetime,
      kept (spent_in last_1h) (w.last last_1h),
      kept (spent_in last_24h) (w.last last_24h),
      kept (spent_in last_7d) (w.last last_7d),
    )

-- Without totals that replace the lifetime, the last hour counts no more than the last day, that no more
-- than the last week, and that no more than the lifetime: requests, errors, tokens and costs.
pub aggregate_windows-Nested :
    (c : Counter) (items : List CompletedRequest) (now : ℕ) (q : Query)
    → q.lifetime_totals ≡ none
    → Nested c (aggregate_windows items now q).windows
unfolding aggregate_windows override_lifetime
aggregate_windows-Nested c items now q h =
    let spent = logged_points now q.points_log_rows in
    let counted = add_items now (keep (is_for q.user_id) items) empty_windows in
    rw (h, override_lifetime)
      (Nested-finished c q.rates (points_of (λ w. w.lifetime) spent)
        (λ k. points_of (λ w. w.last k) spent) counted
        (add_items-Nested c now (keep (is_for q.user_id) items) empty_windows
          (omega arith, omega arith, omega arith)))
