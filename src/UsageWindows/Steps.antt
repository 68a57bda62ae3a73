-- ===== src/UsageWindows/Steps.antt =====
-- One item and one row of the log in the series of unify_llm/usage_windows.py.
use unify_llm.Prelude.{
  ℕ, ◌+◌, ◌<◌, ◌≡◌, refl, false, Option, none, some, List, if◌then◌else◌, length, is_some, arith,
}
use unify_llm.Prelude.Int.{neg_part}
use unify_llm.Monitor.{CompletedRequest}
use unify_llm.Users.Model.{PointsEntry}
use unify_llm.UsageWindows.{Span, last_1h, last_24h, last_7d, empty_window, add, is_within}
use unify_llm.UsageWindows.Series.{
  num_buckets, index_in, Bucket, change_some, change_bucket, add_to_series, row_to_series,
}
use unify_llm.UsageWindows.Buckets.{bucket_index-bounded, index_in-is_within}
use unify_llm.UsageWindows.Counters.{
  Counter, count, total, sum, total-change_at, sum-change_at, length-change_at,
}

index_in-bounded : (now at i : ℕ) (k : Span) → index_in now k at ≡ some i → i < num_buckets k
index_in-bounded now at i last_1h e = bucket_index-bounded at now _ _ 12 i (omega arith) e
index_in-bounded now at i last_24h e = bucket_index-bounded at now _ _ 24 i (omega arith) e
index_in-bounded now at i last_7d e = bucket_index-bounded at now _ _ 7 i (omega arith) e

length-change_some {ℓ} :
    {A : Type ℓ} (f : A → A) (o : Option ℕ) (xs : List A) → length (change_some f o xs) ≡ length xs
length-change_some f none xs = refl
length-change_some f (some i) xs = length-change_at f i xs

total-change_some :
    (c : Counter) (item : CompletedRequest) (o : Option ℕ) (bs : List Bucket)
    → ((i : ℕ) → o ≡ some i → i < length bs)
    → total c (change_some (change_bucket (add item)) o bs)
      ≡ total c bs + (if is_some o then count c (add item empty_window) else 0)
total-change_some c item none bs h = omega arith
total-change_some c item (some i) bs h = total-change_at c item i bs (h i refl)

sum-change_some :
    (d : ℕ) (o : Option ℕ) (ps : List ℕ)
    → ((i : ℕ) → o ≡ some i → i < length ps)
    → sum (change_some (λ p. p + d) o ps) ≡ sum ps + (if is_some o then d else 0)
sum-change_some d none ps h = omega arith
sum-change_some d (some i) ps h = sum-change_at d i ps (h i refl)

-- A series has its number of buckets.
abbrev pub Full {ℓ} : {A : Type ℓ} → Span → List A → Type 0
Full k xs = length xs ≡ num_buckets k

pub add_to_series-Full :
    (now : ℕ) (item : CompletedRequest) (s : Span → List Bucket) (k : Span)
    → Full k (s k)
    → Full k (add_to_series now item s k)
unfolding add_to_series
add_to_series-Full now item s k h = ground (
  arith,
  h,
  length-change_some (change_bucket (add item)) (index_in now k item.finished_at) (s k),
)

pub row_to_series-Full :
    (now : ℕ) (row : PointsEntry) (s : Span → List ℕ) (k : Span)
    → Full k (s k)
    → Full k (row_to_series now row s k)
unfolding row_to_series
row_to_series-Full now row s k h = ground (
  arith,
  h,
  length-change_some (λ p. p + neg_part row.delta) (index_in now k row.created_at) (s k),
)

unset-is_within : (now : ℕ) (k : Span) → is_within now k 0 ≡ false
unfolding is_within
unset-is_within now k = refl

-- An item goes into one bucket if it counts in the window.
pub total-add_to_series :
    (c : Counter) (now : ℕ) (item : CompletedRequest) (s : Span → List Bucket) (k : Span)
    → Full k (s k)
    → total c (add_to_series now item s k)
      ≡ total c (s k)
        + (if is_within now k item.finished_at then count c (add item empty_window) else 0)
unfolding add_to_series
total-add_to_series c now item s k h =
    let inside : (i : ℕ) → index_in now k item.finished_at ≡ some i → i < length (s k) =
      λ i e. omega (arith, h, index_in-bounded now item.finished_at i k e) in
    ground (
      arith,
      unset-is_within now k,
      index_in-is_within now item.finished_at k,
      total-change_some c item (index_in now k item.finished_at) (s k) inside,
    )

pub sum-row_to_series :
    (now : ℕ) (row : PointsEntry) (s : Span → List ℕ) (k : Span)
    → Full k (s k)
    → sum (row_to_series now row s k)
      ≡ sum (s k) + (if is_within now k row.created_at then neg_part row.delta else 0)
unfolding row_to_series
sum-row_to_series now row s k h =
    let inside : (i : ℕ) → index_in now k row.created_at ≡ some i → i < length (s k) =
      λ i e. omega (arith, h, index_in-bounded now row.created_at i k e) in
    ground (
      arith,
      unset-is_within now k,
      index_in-is_within now row.created_at k,
      sum-change_some (neg_part row.delta) (index_in now k row.created_at) (s k) inside,
    )
