-- ===== src/UsageWindows.antt =====
-- unify_llm/usage_windows.py: usage in the last hour, day and week, and its curves. Times are
-- nanoseconds, costs as in the monitor, and points billionths of a point; sums of floats are exact here.
pub mod Series
pub mod Buckets
pub mod Counters
pub mod Steps
pub mod Curves
pub mod Nesting
mod Tests
use unify_llm.Prelude.{
  ℕ, ◌+◌, ◌-◌, ◌*◌, ◌/◌, ◌%◌, String, Bool, true, false, ◌&&◌, ◌||◌, Option, none, some, List, [],
  ◌∷◌, ltb, leb, ◌==◌, if◌then◌else◌,
}
use unify_llm.Prelude.Clock.{second}
use unify_llm.Prelude.Int.{ℤ, pos_part, neg_part}
use unify_llm.Prelude.Text.{str_eq}
use unify_llm.Monitor.{CompletedRequest, EndStatus, succeeded, failed, cancelled, Totals}
use unify_llm.Users.Model.{PointsEntry}

-- The keys of `WINDOW_SECONDS`
pub data Span : Type 0 where
  last_1h last_24h last_7d : Span

-- `WINDOW_SECONDS`
abbrev pub window_length : Span → ℕ
window_length last_1h = 3600 * second
window_length last_24h = 24 * 3600 * second
window_length last_7d = 7 * 24 * 3600 * second

-- What `empty_window` makes
pub record Usage : Type 0 where
  pub requests : ℕ
  pub errors : ℕ
  pub prompt_tokens : ℕ
  pub completion_tokens : ℕ
  pub total_tokens : ℕ
  pub cost : ℕ
  pub points : ℕ

abbrev pub empty_window : Usage
empty_window = record {
  requests = 0;
  errors = 0;
  prompt_tokens = 0;
  completion_tokens = 0;
  total_tokens = 0;
  cost = 0;
  points = 0;
}

abbrev is_ok : EndStatus → Bool
is_ok succeeded = true
is_ok _ = false

-- `_add`
unfoldable pub add : CompletedRequest → Usage → Usage
add item w = record w {
  requests = w.requests + 1;
  prompt_tokens = w.prompt_tokens + item.prompt_tokens;
  completion_tokens = w.completion_tokens + item.completion_tokens;
  total_tokens = w.total_tokens + (item.prompt_tokens + item.completion_tokens);
  cost = w.cost + item.cost;
  errors = w.errors + (if is_ok item.status then 0 else 1);
}

-- `round(points, 6)`, to an even digit when it is half way
unfoldable pub round_points : ℕ → ℕ
round_points n =
    let q = n / 1000 in
    let r = n % 1000 in 1000 * (if ltb r 500 || (r == 500 && (q % 2 == 0)) then q else q + 1)

-- `_finalize`; a cost in this unit has at most 12 digits.
unfoldable pub finalize : Usage → Usage
unfolding round_points
finalize w = record w { points = round_points w.points }

-- What the points cost: millionths of a point for each thousand tokens
pub record Rates : Type 0 where
  pub points_per_1k_prompt : ℕ
  pub points_per_1k_completion : ℕ

-- `estimate_points`
unfoldable pub estimate_points : Rates → Usage → ℕ
estimate_points r w =
    if (r.points_per_1k_prompt == 0) && (r.points_per_1k_completion == 0)
    then 0
    else w.prompt_tokens * r.points_per_1k_prompt + w.completion_tokens * r.points_per_1k_completion

-- `age <= WINDOW_SECONDS[key]` with the age cut at 0; false when the time is not set
unfoldable pub is_within : ℕ → Span → ℕ → Bool
is_within now k at = ltb 0 at && leb (now - at) (window_length k)

-- The windows, each under its key
pub record Windows {ℓ} (A : Type ℓ) : Type ℓ where
  pub lifetime : A
  pub last : Span → A

-- One row of the loop of `aggregate_points_log`; deltas are whole points, so the rounding does nothing.
unfoldable pub add_row : ℕ → PointsEntry → Windows ℕ → Windows ℕ
unfolding is_within
add_row now row w = if neg_part row.delta == 0 then w else record {
  lifetime = w.lifetime + neg_part row.delta;
  last = λ k. if is_within now k row.created_at then w.last k + neg_part row.delta else w.last k;
}

unfoldable pub add_rows : ℕ → List PointsEntry → Windows ℕ → Windows ℕ
unfolding add_row
add_rows now [] w = w
add_rows now (row ∷ rows) w = add_rows now rows (add_row now row w)

-- `aggregate_points_log`
unfoldable pub aggregate_points_log : ℕ → List PointsEntry → Windows ℕ
unfolding add_rows
aggregate_points_log now rows = add_rows now rows (record { lifetime = 0; last = λ k. 0 })

-- `uid_filter is not None and str(item.get("user_id") or "") != uid_filter` skips the item.
unfoldable pub is_for : Option String → CompletedRequest → Bool
is_for none item = true
is_for (some uid) item = str_eq item.request.user_id uid

-- One item that is not skipped
unfoldable pub add_item : ℕ → CompletedRequest → Windows Usage → Windows Usage
unfolding is_within add
add_item now item w = record {
  lifetime = add item w.lifetime;
  last = λ k. if is_within now k item.finished_at then add item (w.last k) else w.last k;
}

unfoldable pub add_items : ℕ → List CompletedRequest → Windows Usage → Windows Usage
unfolding add_item
add_items now [] w = w
add_items now (item ∷ items) w = add_items now items (add_item now item w)

abbrev pub empty_windows : Windows Usage
empty_windows = record { lifetime = empty_window; last = λ k. empty_window }

-- `lifetime_totals`, whose `total_tokens` is taken unless it is 0
pub record LifetimeTotals : Type 0 where
  pub requests : ℕ
  pub errors : ℕ
  pub prompt_tokens : ℕ
  pub completion_tokens : ℕ
  pub total_tokens : ℕ
  pub cost : ℕ

unfoldable pub override_lifetime : Option LifetimeTotals → Usage → Usage
override_lifetime none w = w
override_lifetime (some t) w = record w {
  requests = t.requests;
  errors = t.errors;
  prompt_tokens = t.prompt_tokens;
  completion_tokens = t.completion_tokens;
  total_tokens =
      if t.total_tokens == 0 then t.prompt_tokens + t.completion_tokens else t.total_tokens;
  cost = t.cost;
}

abbrev pub whole_points : ℕ
whole_points = 1000000000

-- The points of one window: from the log, if there is one, or estimated
unfoldable pub window_points : Rates → Option ℕ → Usage → Usage
unfolding estimate_points
window_points rates none w = record w { points = estimate_points rates w }
window_points rates (some spent) w = record w { points = spent * whole_points }
