-- ===== src/UsageWindows/Tests.antt =====
-- A history of five requests in the windows and curves of unify_llm/usage_windows.py.
use unify_llm.Prelude.{ℕ, ◌-◌, ◌*◌, ◌≡◌, refl, true, none, some, List, [], ◌∷◌, arith}
use unify_llm.Prelude.Clock.{second}
use unify_llm.Prelude.Int.{pos, negsuc}
use unify_llm.Monitor.{CompletedRequest, EndStatus, succeeded, failed}
use unify_llm.Users.Model.{PointsEntry, adjust, deduct}
use unify_llm.UsageWindows.{last_1h, last_24h, aggregate_points_log}
use unify_llm.UsageWindows.Series.{
  bucket_index, empty_series_skeleton, points_series_from_log, Query, aggregate_windows,
}
use unify_llm.UsageWindows.Buckets.{Covers, get_elem?, index_in-Covers}
use unify_llm.UsageWindows.Counters.{count, total, sum, prompt_tokens, errors}
use unify_llm.UsageWindows.Curves.{points_series-sum, series-total}
use unify_llm.UsageWindows.Nesting.{Nested, aggregate_windows-Nested}

abbrev now : ℕ
now = 2000000 * second

abbrev completed : ℕ → EndStatus → ℕ → CompletedRequest
completed ago status tokens = record {
  request = record {
    id = "r";
    provider_id = "p";
    model = "m";
    requested_model = "m";
    protocol = "openai";
    path = "/v1/chat/completions";
    started_at = now - ago * second;
    client = [];
    user_id = "7";
    username = "ann";
  };
  status = status;
  http_status = 200;
  latency_ms = 10;
  error = none;
  finished_at = now - ago * second;
  prompt_tokens = tokens;
  completion_tokens = 1;
  cost = 3;
}

abbrev items : List CompletedRequest
items =
    completed 0 succeeded 10
    ∷ completed 301 failed 20
    ∷ completed 4000 succeeded 40
    ∷ completed 90000 failed 80
    ∷ completed 700000 succeeded 160
    ∷ []

abbrev entry : ℕ → ℕ → PointsEntry
entry ago spent = record {
  user_id = 7;
  delta = negsuc spent;
  balance_after = pos 0;
  kind = deduct;
  note = "";
  prompt_tokens = 1;
  completion_tokens = 1;
  created_at = now - ago * second;
}

abbrev log : List PointsEntry
log = entry 10 1 ∷ entry 5000 2 ∷ record (entry 20 0) { delta = pos 50; kind = adjust } ∷ []

abbrev query : Query
query = record {
  user_id = some "7";
  rates = record { points_per_1k_prompt = 1000000; points_per_1k_completion = 2000000 };
  lifetime_totals = none;
  points_log_rows = some log;
  include_series = true;
}

index_in-Covers_example :
    Covers (now - 301 * second) (300 * second) (get_elem? (empty_series_skeleton now last_1h) 10)
unfolding bucket_index
index_in-Covers_example = index_in-Covers now (now - 301 * second) 10 last_1h (omega arith) refl

points_series-sum_example :
    sum (points_series_from_log now log last_1h) ≡ (aggregate_points_log now log).last last_1h
points_series-sum_example = points_series-sum now log last_1h

series-total_example :
    total prompt_tokens ((aggregate_windows items now query).series last_24h)
    ≡ count prompt_tokens ((aggregate_windows items now query).windows.last last_24h)
series-total_example = series-total prompt_tokens items now query last_24h refl

aggregate_windows-Nested_example : Nested errors (aggregate_windows items now query).windows
aggregate_windows-Nested_example = aggregate_windows-Nested errors items now query refl
