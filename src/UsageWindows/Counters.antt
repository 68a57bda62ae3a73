-- ===== src/UsageWindows/Counters.antt =====
-- What the windows and buckets of unify_llm/usage_windows.py count.
use unify_llm.Prelude.{
  ℕ, zero, suc, ◌+◌, ◌*◌, ◌<◌, ◌≡◌, refl, ap, Option, none, some, List, [], ◌∷◌, length, arith,
}
use unify_llm.Monitor.{CompletedRequest}
use unify_llm.UsageWindows.{
  Usage, empty_window, add, finalize, Rates, estimate_points, window_points, whole_points,
}
use unify_llm.UsageWindows.Series.{Bucket, change_at, change_bucket}

-- What a window counts, points left out
pub data Counter : Type 0 where
  requests errors prompt_tokens completion_tokens total_tokens cost : Counter

abbrev pub count : Counter → Usage → ℕ
count requests w = w.requests
count errors w = w.errors
count prompt_tokens w = w.prompt_tokens
count completion_tokens w = w.completion_tokens
count total_tokens w = w.total_tokens
count cost w = w.cost

pub count-add :
    (c : Counter) (item : CompletedRequest) (w : Usage)
    → count c (add item w) ≡ count c w + count c (add item empty_window)
unfolding add
count-add requests item w = omega arith
count-add errors item w = ground arith
count-add prompt_tokens item w = omega arith
count-add completion_tokens item w = omega arith
count-add total_tokens item w = omega arith
count-add cost item w = omega arith

pub count-finalize : (c : Counter) (w : Usage) → count c (finalize w) ≡ count c w
unfolding finalize
count-finalize requests w = refl
count-finalize errors w = refl
count-finalize prompt_tokens w = refl
count-finalize completion_tokens w = refl
count-finalize total_tokens w = refl
count-finalize cost w = refl

pub count-points : (c : Counter) (w : Usage) (p : ℕ) → count c (record w { points = p }) ≡ count c w
count-points requests w p = refl
count-points errors w p = refl
count-points prompt_tokens w p = refl
count-points completion_tokens w p = refl
count-points total_tokens w p = refl
count-points cost w p = refl

pub count-window_points :
    (c : Counter) (rates : Rates) (o : Option ℕ) (w : Usage)
    → count c (window_points rates o w) ≡ count c w
unfolding window_points
count-window_points c rates none w = count-points c w (estimate_points rates w)
count-window_points c rates (some p) w = count-points c w (p * whole_points)

pub count-empty_window : (c : Counter) → count c empty_window ≡ 0
count-empty_window requests = refl
count-empty_window errors = refl
count-empty_window prompt_tokens = refl
count-empty_window completion_tokens = refl
count-empty_window total_tokens = refl
count-empty_window cost = refl

-- The sum of a counter over the buckets
abbrev pub total : Counter → List Bucket → ℕ
total c [] = 0
total c (b ∷ bs) = count c b.usage + total c bs

abbrev pub sum : List ℕ → ℕ
sum [] = 0
sum (p ∷ ps) = p + sum ps

pub total-change_at :
    (c : Counter) (item : CompletedRequest) (i : ℕ) (bs : List Bucket)
    → i < length bs
    → total c (change_at (change_bucket (add item)) i bs)
      ≡ total c bs + count c (add item empty_window)
total-change_at c item i [] h = omega arith
total-change_at c item zero (b ∷ bs) h = omega (arith, count-add c item b.usage)
total-change_at c item (suc i) (b ∷ bs) h = omega (arith, total-change_at c item i bs (omega arith))

pub sum-change_at :
    (d i : ℕ) (ps : List ℕ) → i < length ps → sum (change_at (λ p. p + d) i ps) ≡ sum ps + d
sum-change_at d i [] h = omega arith
sum-change_at d zero (p ∷ ps) h = omega arith
sum-change_at d (suc i) (p ∷ ps) h = omega (arith, sum-change_at d i ps (omega arith))

pub length-change_at {ℓ} :
    {A : Type ℓ} (f : A → A) (i : ℕ) (xs : List A) → length (change_at f i xs) ≡ length xs
length-change_at f i [] = refl
length-change_at f zero (x ∷ xs) = refl
length-change_at f (suc i) (x ∷ xs) = ap suc (length-change_at f i xs)
