-- ===== src/UsageWindows/Buckets.antt =====
-- Where `_bucket_index` of unify_llm/usage_windows.py puts a time.
use unify_llm.Prelude.{
  ℕ, zero, suc, ◌+◌, ◌*◌, ◌≤◌, ◌<◌, ◌≡◌, ap, sym, ◌∙◌, Option, none, some, List, [], ◌∷◌, is_some,
  arith,
}
use unify_llm.Prelude.Int.{ℤ, pos, ◌+ℤ◌, ◌-ℤ◌, ◌≤ℤ◌, +ℤ_parts, -ℤ_parts, eq_of_parts}
use unify_llm.UsageWindows.{
  Span, last_1h, last_24h, last_7d, window_length, is_within, empty_window,
}
use unify_llm.UsageWindows.Series.{
  bucket_index, bucket_length, num_buckets, index_in, Bucket, buckets_from, empty_series_skeleton,
}

-- The index is one of a bucket, whatever the sizes are.
pub bucket_index-bounded :
    (at now window bucket buckets i : ℕ)
    → 0 < buckets
    → bucket_index at now window bucket buckets ≡ some i
    → i < buckets
unfolding bucket_index
bucket_index-bounded at now window bucket buckets i h e = ground (arith, h, e)

abbrev pub get_elem? {ℓ} : {A : Type ℓ} → List A → ℕ → Option A
get_elem? [] i = none
get_elem? (x ∷ xs) zero = some x
get_elem? (x ∷ xs) (suc i) = get_elem? xs i

start_at_zero : (t : ℤ) (bucket : ℕ) → t +ℤ pos (0 * bucket) ≡ t
start_at_zero t bucket =
    let p = +ℤ_parts t (pos (0 * bucket)) in
    eq_of_parts (t +ℤ pos (0 * bucket)) t (ground (arith, p))

start_after :
    (t : ℤ) (bucket i : ℕ) → t +ℤ pos bucket +ℤ pos (i * bucket) ≡ t +ℤ pos (suc i * bucket)
start_after t bucket i =
    let p = +ℤ_parts (t +ℤ pos bucket) (pos (i * bucket)) in
    let q = +ℤ_parts t (pos bucket) in
    let r = +ℤ_parts t (pos (suc i * bucket)) in
    eq_of_parts (t +ℤ pos bucket +ℤ pos (i * bucket)) (t +ℤ pos (suc i * bucket))
      (omega (arith, p, q, r))

-- The buckets start one length apart.
get_elem?-buckets_from :
    (bucket : ℕ) (t : ℤ) (n i : ℕ)
    → i < n
    → get_elem? (buckets_from bucket t n) i
      ≡ some (record { t = t +ℤ pos (i * bucket); usage = empty_window })
unfolding buckets_from
get_elem?-buckets_from bucket t zero i h = ground (arith, h)
get_elem?-buckets_from bucket t (suc n) zero h =
    ap (λ s. some (record { t = s; usage = empty_window })) (sym (start_at_zero t bucket))
get_elem?-buckets_from bucket t (suc n) (suc i) h =
    get_elem?-buckets_from bucket (t +ℤ pos bucket) n i (omega (arith, h))
    ∙ ap (λ s. some (record { t = s; usage = empty_window })) (start_after t bucket i)

covered :
    (now at i : ℕ) (k : Span)
    → at < now
    → index_in now k at ≡ some i
    → (now + i * bucket_length k ≤ at + window_length k)
      × (at + window_length k < now + (i + 1) * bucket_length k)
unfolding bucket_index
covered now at i last_1h h e = ground (arith, h, e)
covered now at i last_24h h e = ground (arith, h, e)
covered now at i last_7d h e = ground (arith, h, e)

index_in-bounded : (now at i : ℕ) (k : Span) → index_in now k at ≡ some i → i < num_buckets k
index_in-bounded now at i last_1h e =
    bucket_index-bounded at now (window_length last_1h) (bucket_length last_1h) 12 i (omega arith) e
index_in-bounded now at i last_24h e =
    bucket_index-bounded at now (window_length last_24h) (bucket_length last_24h) 24 i (omega arith)
      e
index_in-bounded now at i last_7d e =
    bucket_index-bounded at now (window_length last_7d) (bucket_length last_7d) 7 i (omega arith) e

-- The bucket at this place of the curve begins at or before the time, and its length reaches past it.
abbrev pub Covers : ℕ → ℕ → Option Bucket → Type 0
Covers at bucket o =
    (b : Bucket) × (o ≡ some b) × (b.t ≤ℤ pos at) × (pos (at + 1) ≤ℤ b.t +ℤ pos bucket)

-- A time before `now` that has an index stands in the bucket of that index: the empty curve of the span
-- has one there, and `t <= at < t + bucket_seconds` holds for the `t` of that bucket.
pub index_in-Covers :
    (now at i : ℕ) (k : Span)
    → at < now
    → index_in now k at ≡ some i
    → Covers at (bucket_length k) (get_elem? (empty_series_skeleton now k) i)
unfolding empty_series_skeleton
index_in-Covers now at i k h e =
    let start = pos now -ℤ pos (window_length k) in
    let t = start +ℤ pos (i * bucket_length k) in
    let (low, high) = covered now at i k h e in
    let p = -ℤ_parts (pos now) (pos (window_length k)) in
    let q = +ℤ_parts start (pos (i * bucket_length k)) in
    let r = +ℤ_parts t (pos (bucket_length k)) in
    (
      record { t = t; usage = empty_window },
      get_elem?-buckets_from (bucket_length k) start (num_buckets k) i
          (index_in-bounded now at i k e),
      omega (arith, low, p, q),
      omega (arith, high, p, q, r),
    )

-- A time that is set has a bucket in a series exactly when it counts in the window.
pub index_in-is_within :
    (now at : ℕ) (k : Span) → 0 < at → is_some (index_in now k at) ≡ is_within now k at
unfolding bucket_index is_within
index_in-is_within now at last_1h h = ground (arith, h)
index_in-is_within now at last_24h h = ground (arith, h)
index_in-is_within now at last_7d h = ground (arith, h)
