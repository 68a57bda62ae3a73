-- ===== src/UsageWindows/Curves.antt =====
-- The curves of `aggregate_windows` (unify_llm/usage_windows.py) add up to its windows.
use unify_llm.Prelude.{
  ℕ, zero, suc, ◌+◌, ◌*◌, ◌≡◌, refl, ap, sym, ◌∙◌, true, Option, none, some, List, [], ◌∷◌,
  if◌then◌else◌, keep, map, arith,
}
use unify_llm.Prelude.Int.{neg_part, ℤ, pos, ◌+ℤ◌}
use unify_llm.Monitor.{CompletedRequest}
use unify_llm.Users.Model.{PointsEntry}
use unify_llm.UsageWindows.{
  Span, last_1h, last_24h, last_7d, Usage, empty_window, add, finalize, Rates, estimate_points,
  Windows, add_row, add_rows, aggregate_points_log, is_for, is_within, add_item, add_items,
  empty_windows, whole_points,
}
use unify_llm.UsageWindows.Series.{
  num_buckets, Bucket, buckets_from, empty_series_skeleton, change_bucket, add_to_series,
  add_all_to_series, row_to_series, rows_to_series, zeros, points_series_from_log, set_points,
  aggregate_series, Query, aggregate_windows,
}
use unify_llm.UsageWindows.Counters.{
  count-empty_window, Counter, count, count-add, count-finalize, count-points, count-window_points,
  total, sum,
}
use unify_llm.UsageWindows.Steps.{
  Full, add_to_series-Full, row_to_series-Full, total-add_to_series, sum-row_to_series,
}

count-add_item :
    (c : Counter) (now : ℕ) (item : CompletedRequest) (w : Windows Usage) (k : Span)
    → count c ((add_item now item w).last k)
      ≡ count c (w.last k)
        + (if is_within now k item.finished_at then count c (add item empty_window) else 0)
unfolding add_item
count-add_item c now item w k = ground (arith, count-add c item (w.last k))

total-add_all_to_series :
    (c : Counter) (now : ℕ) (k : Span) (items : List CompletedRequest) (s : Span → List Bucket)
    (w : Windows Usage)
    → Full k (s k)
    → total c (s k) ≡ count c (w.last k)
    → total c (add_all_to_series now items s k) ≡ count c ((add_items now items w).last k)
unfolding add_all_to_series add_items
total-add_all_to_series c now k [] s w f h = h
total-add_all_to_series c now k (item ∷ items) s w f h =
    total-add_all_to_series c now k items (add_to_series now item s) (add_item now item w)
      (add_to_series-Full now item s k f)
      (total-add_to_series c now item s k f
        ∙ ap
            (λ t.
              t + (if is_within now k item.finished_at then count c (add item empty_window) else 0))
            h
        ∙ sym (count-add_item c now item w k))

add_row_lem :
    (now : ℕ) (row : PointsEntry) (w : Windows ℕ) (k : Span)
    → (add_row now row w).last k
      ≡ w.last k + (if is_within now k row.created_at then neg_part row.delta else 0)
unfolding add_row
add_row_lem now row w k = ground arith

sum-rows_to_series :
    (now : ℕ) (k : Span) (rows : List PointsEntry) (s : Span → List ℕ) (w : Windows ℕ)
    → Full k (s k)
    → sum (s k) ≡ w.last k
    → sum (rows_to_series now rows s k) ≡ (add_rows now rows w).last k
unfolding rows_to_series add_rows
sum-rows_to_series now k [] s w f h = h
sum-rows_to_series now k (row ∷ rows) s w f h =
    sum-rows_to_series now k rows (row_to_series now row s) (add_row now row w)
      (row_to_series-Full now row s k f)
      (sum-row_to_series now row s k f
        ∙ ap (λ t. t + (if is_within now k row.created_at then neg_part row.delta else 0)) h
        ∙ sym (add_row_lem now row w k))

zeros-Full : (k : Span) → Full k (zeros (num_buckets k))
zeros-Full last_1h = refl
zeros-Full last_24h = refl
zeros-Full last_7d = refl

sum-zeros : (k : Span) → sum (zeros (num_buckets k)) ≡ 0
sum-zeros last_1h = refl
sum-zeros last_24h = refl
sum-zeros last_7d = refl

skeleton-Full : (now : ℕ) (k : Span) → Full k (empty_series_skeleton now k)
unfolding empty_series_skeleton buckets_from
skeleton-Full now last_1h = refl
skeleton-Full now last_24h = refl
skeleton-Full now last_7d = refl

total-buckets_from :
    (c : Counter) (bucket : ℕ) (t : ℤ) (n : ℕ) → total c (buckets_from bucket t n) ≡ 0
unfolding buckets_from
total-buckets_from c bucket t zero = refl
total-buckets_from c bucket t (suc n) =
    omega (arith, count-empty_window c, total-buckets_from c bucket (t +ℤ pos bucket) n)

total-skeleton : (c : Counter) (now : ℕ) (k : Span) → total c (empty_series_skeleton now k) ≡ 0
unfolding empty_series_skeleton
total-skeleton c now k = total-buckets_from c _ _ (num_buckets k)

-- The points of the buckets of a series are the points of its window, for every log.
pub points_series-sum :
    (now : ℕ) (rows : List PointsEntry) (k : Span)
    → sum (points_series_from_log now rows k) ≡ (aggregate_points_log now rows).last k
unfolding points_series_from_log aggregate_points_log
points_series-sum now rows k =
    sum-rows_to_series now k rows (λ j. zeros (num_buckets j)) _ (zeros-Full k) (sum-zeros k)

total-map :
    (c : Counter) (f : Usage → Usage) (bs : List Bucket)
    → ((w : Usage) → count c (f w) ≡ count c w)
    → total c (map (change_bucket f) bs) ≡ total c bs
total-map c f [] h = refl
total-map c f (b ∷ bs) h = omega (arith, h b.usage, total-map c f bs h)

total-set_points :
    (c : Counter) (ps : List ℕ) (bs : List Bucket) → total c (set_points ps bs) ≡ total c bs
unfolding set_points
total-set_points c ps [] = refl
total-set_points c [] (b ∷ bs) = omega (arith, count-points c b.usage 0, total-set_points c [] bs)
total-set_points c (p ∷ ps) (b ∷ bs) =
    omega (arith, count-points c b.usage (p * whole_points), total-set_points c ps bs)

keep-is_for-none : (items : List CompletedRequest) → keep (is_for none) items ≡ items
unfolding is_for
keep-is_for-none [] = refl
keep-is_for-none (item ∷ items) = ap (λ t. item ∷ t) (keep-is_for-none items)

total-aggregate_series :
    (c : Counter) (items : List CompletedRequest) (now : ℕ) (rates : Rates)
    (log : Option (List PointsEntry)) (k : Span)
    → total c (aggregate_series items now none rates log k)
      ≡ total c (add_all_to_series now items (empty_series_skeleton now) k)
unfolding aggregate_series
total-aggregate_series c items now rates none k = rw (keep-is_for-none items) (
    total-map c finalize _ (count-finalize c)
    ∙ total-map c (λ w. record w { points = estimate_points rates w }) _
        (λ w. count-points c w (estimate_points rates w)))
total-aggregate_series c items now rates (some rows) k = rw (keep-is_for-none items) (
    total-map c finalize _ (count-finalize c)
    ∙ total-set_points c (points_series_from_log now rows k) _)

-- Requests, errors, tokens and costs, when the series are asked for: the buckets of each curve add up
-- to the window of its name.
pub series-total :
    (c : Counter) (items : List CompletedRequest) (now : ℕ) (q : Query) (k : Span)
    → q.include_series ≡ true
    → total c ((aggregate_windows items now q).series k)
      ≡ count c ((aggregate_windows items now q).windows.last k)
unfolding aggregate_windows
series-total c items now q k h =
    let scanned = keep (is_for q.user_id) items in
    rw (h) (
      total-aggregate_series c scanned now q.rates q.points_log_rows k
      ∙ total-add_all_to_series c now k scanned (empty_series_skeleton now) empty_windows
          (skeleton-Full now k) (total-skeleton c now k ∙ sym (count-empty_window c))
      ∙ sym (count-window_points c q.rates _ ((add_items now scanned empty_windows).last k))
      ∙ sym (count-finalize c _))
