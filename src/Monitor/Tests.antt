-- ===== src/Monitor/Tests.antt =====
-- The monitor of unify_llm/monitor.py at concrete calls.
use unify_llm.Prelude.{◌≡◌, refl, String, true, none, List, [], ◌∷◌}
use unify_llm.Prelude.Dict.{lookup, insert, sum_by}
use unify_llm.Monitor.{InFlightRequest, Env, Monitor, swept, new_monitor, begin, end, add_log}
use unify_llm.Monitor.Balance.{in_flight_count}
use unify_llm.Monitor.Ending.{end_once}
use unify_llm.Monitor.History.{
  AreAllowed, Call, call, calls, start, ended, sweep, clear, in_flight_counted,
}

abbrev request : String → InFlightRequest
request rid = record {
  id = rid;
  provider_id = "deepseek";
  model = "deepseek-chat";
  requested_model = "fast";
  protocol = "openai";
  path = "/v1/chat/completions";
  started_at = 10;
  client = [];
  user_id = "";
  username = "";
}

abbrev env : Env
env = record { now = 20; monotonic = 20; store_works = true }

abbrev fresh : Monitor
unfolding new_monitor
fresh = new_monitor 500 2 none none env

-- One request is in flight.
abbrev busy : Monitor
unfolding begin
busy = begin (request "r1") fresh

end_once_example :
    end "r1" "deepseek" (swept 0) env (end "r1" "deepseek" (swept 10) env busy)
    ≡ end "r1" "deepseek" (swept 10) env busy
unfolding begin add_log lookup insert new_monitor
end_once_example = end_once "r1" "deepseek" (swept 10) (swept 0) env env busy refl

abbrev some_calls : List Call
some_calls =
    start (request "r1")
    ∷ start (request "r2")
    ∷ ended "r1" "deepseek" (swept 10) env
    ∷ sweep 5 env
    ∷ clear env
    ∷ []

in_flight_counted_example :
    let m = calls some_calls (new_monitor 500 2 none none env) in
    m.active ≡ sum_by in_flight_count m.providers
unfolding begin add_log lookup insert new_monitor call AreAllowed
in_flight_counted_example =
    in_flight_counted 500 2 none none env some_calls (refl, (refl, (refl, (tt, (tt, tt)))))
