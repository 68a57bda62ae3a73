-- ===== src/UsageWindows/Series.antt =====
-- The curves of unify_llm/usage_windows.py, and what `aggregate_windows` answers.
use unify_llm.Prelude.{
  ℕ, zero, suc, ◌+◌, ◌-◌, ◌*◌, ◌/◌, String, Bool, true, false, ◌||◌, Option, none, some, List, [],
  ◌∷◌, ltb, leb, ◌==◌, if◌then◌else◌, length, keep, map,
}
use unify_llm.Prelude.Clock.{second}
use unify_llm.Prelude.Int.{ℤ, pos, neg_part, ◌+ℤ◌, ◌-ℤ◌}
use unify_llm.Monitor.{CompletedRequest}
use unify_llm.Users.Model.{PointsEntry}
use unify_llm.UsageWindows.{
  Span, last_1h, last_24h, last_7d, window_length, Usage, empty_window, add, finalize, Rates,
  estimate_points, Windows, aggregate_points_log, is_for, add_items, empty_windows, LifetimeTotals,
  override_lifetime, window_points, whole_points,
}

-- `SERIES_BINS`
abbrev pub bucket_length : Span → ℕ
bucket_length last_1h = 300 * second
bucket_length last_24h = 3600 * second
bucket_length last_7d = 86400 * second

abbrev pub num_buckets : Span → ℕ
num_buckets last_1h = 12
num_buckets last_24h = 24
num_buckets last_7d = 7

-- `_bucket_index`: `rel` is `finished_at + window - now`.
unfoldable pub bucket_index : ℕ → ℕ → ℕ → ℕ → ℕ → Option ℕ
bucket_index finished_at now window bucket buckets =
    if ltb (finished_at + window) now
    then none
    else (let rel = finished_at + window - now in
        if leb window rel
        then some (buckets - 1)
        else if leb buckets (rel / bucket)
        then some (buckets - 1)
        else some (rel / bucket))

-- `_bucket_index` for one of the series
abbrev pub index_in : ℕ → Span → ℕ → Option ℕ
index_in now k at = bucket_index at now (window_length k) (bucket_length k) (num_buckets k)

pub record Bucket : Type 0 where
  pub t : ℤ
  pub usage : Usage

-- `n` buckets that start at `t`
unfoldable pub buckets_from : ℕ → ℤ → ℕ → List Bucket
buckets_from bucket t zero = []
buckets_from bucket t (suc n) =
    record { t = t; usage = empty_window } ∷ buckets_from bucket (t +ℤ pos bucket) n

-- `_empty_series_skeleton`
unfoldable pub empty_series_skeleton : ℕ → Span → List Bucket
unfolding buckets_from
empty_series_skeleton now k =
    buckets_from (bucket_length k) (pos now -ℤ pos (window_length k)) (num_buckets k)

-- `xs[i] = f(xs[i])`
abbrev pub change_at {ℓ} : {A : Type ℓ} → (A → A) → ℕ → List A → List A
change_at f i [] = []
change_at f zero (x ∷ xs) = f x ∷ xs
change_at f (suc i) (x ∷ xs) = x ∷ change_at f i xs

-- The same, if there is an index
abbrev pub change_some {ℓ} : {A : Type ℓ} → (A → A) → Option ℕ → List A → List A
change_some f none xs = xs
change_some f (some i) xs = change_at f i xs

abbrev pub change_bucket : (Usage → Usage) → Bucket → Bucket
change_bucket f b = record b { usage = f b.usage }

-- One item in each of the series
unfoldable pub add_to_series : ℕ → CompletedRequest → (Span → List Bucket) → Span → List Bucket
unfolding bucket_index add
add_to_series now item series k =
    if item.finished_at == 0
    then series k
    else change_some (change_bucket (add item)) (index_in now k item.finished_at) (series k)

unfoldable pub add_all_to_series :
    ℕ → List CompletedRequest → (Span → List Bucket) → Span → List Bucket
unfolding add_to_series
add_all_to_series now [] series = series
add_all_to_series now (item ∷ items) series =
    add_all_to_series now items (add_to_series now item series)

-- One row of the loop of `_points_series_from_log`
unfoldable pub row_to_series : ℕ → PointsEntry → (Span → List ℕ) → Span → List ℕ
unfolding bucket_index
row_to_series now row series k =
    if (neg_part row.delta == 0) || (row.created_at == 0)
    then series k
    else change_some (λ p. p + neg_part row.delta) (index_in now k row.created_at) (series k)

unfoldable pub rows_to_series : ℕ → List PointsEntry → (Span → List ℕ) → Span → List ℕ
unfolding row_to_series
rows_to_series now [] series = series
rows_to_series now (row ∷ rows) series = rows_to_series now rows (row_to_series now row series)

abbrev pub zeros : ℕ → List ℕ
zeros zero = []
zeros (suc n) = 0 ∷ zeros n

-- `_points_series_from_log`
unfoldable pub points_series_from_log : ℕ → List PointsEntry → Span → List ℕ
unfolding rows_to_series
points_series_from_log now rows = rows_to_series now rows (λ k. zeros (num_buckets k))

-- `bucket["points"] = pts[i] if i < len(pts) else 0.0`
unfoldable pub set_points : List ℕ → List Bucket → List Bucket
set_points pts [] = []
set_points [] (b ∷ bs) = change_bucket (λ w. record w { points = 0 }) b ∷ set_points [] bs
set_points (p ∷ pts) (b ∷ bs) =
    change_bucket (λ w. record w { points = p * whole_points }) b ∷ set_points pts bs

-- `aggregate_series`
unfoldable pub aggregate_series :
    List CompletedRequest
    → ℕ
    → Option String
    → Rates
    → Option (List PointsEntry)
    → Span
    → List Bucket
unfolding is_for add_all_to_series points_series_from_log set_points estimate_points finalize
    empty_series_skeleton
aggregate_series items now user_id rates log k =
    let counted =
      add_all_to_series now (keep (is_for user_id) items) (empty_series_skeleton now) k in
    map (change_bucket finalize) (elim log [
      | some rows ↦ set_points (points_series_from_log now rows k) counted
      | none ↦ map (change_bucket (λ w. record w { points = estimate_points rates w })) counted
    ])

-- What `aggregate_windows` answers, constants left out
pub record Report : Type 0 where
  pub windows : Windows Usage
  pub series : Span → List Bucket
  pub history_items_scanned : ℕ
  pub from_log : Bool

-- What `aggregate_windows` is called with, apart from the items and the clock
pub record Query : Type 0 where
  pub user_id : Option String
  pub rates : Rates
  pub lifetime_totals : Option LifetimeTotals
  pub points_log_rows : Option (List PointsEntry)
  pub include_series : Bool

abbrev pub logged_points : ℕ → Option (List PointsEntry) → Option (Windows ℕ)
logged_points now none = none
logged_points now (some rows) = some (aggregate_points_log now rows)

abbrev pub points_of : (Windows ℕ → ℕ) → Option (Windows ℕ) → Option ℕ
points_of f none = none
points_of f (some w) = some (f w)

-- `aggregate_windows`
unfoldable pub aggregate_windows : List CompletedRequest → ℕ → Query → Report
unfolding is_for add_items aggregate_points_log override_lifetime window_points finalize
    aggregate_series
aggregate_windows items now q =
    let scanned = keep (is_for q.user_id) items in
    let counted = add_items now scanned empty_windows in
    let spent = logged_points now q.points_log_rows in
    record {
      windows = record {
        lifetime = finalize (
            window_points q.rates (points_of (λ w. w.lifetime) spent)
              (override_lifetime q.lifetime_totals counted.lifetime));
        last = λ k.
            finalize (window_points q.rates (points_of (λ w. w.last k) spent) (counted.last k));
      };
      series = λ k.
          if q.include_series
          then aggregate_series scanned now none q.rates q.points_log_rows k
          else [];
      history_items_scanned = length scanned;
      from_log = elim q.points_log_rows [ none ↦ false | some rows ↦ true ];
    }
