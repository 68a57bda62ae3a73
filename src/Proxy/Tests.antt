-- ===== src/Proxy/Tests.antt =====
-- A call of `_proxy_call` (unify_llm/app.py) in a small world.
use unify_llm.Prelude.{ℕ, zero, suc, ◌+◌, ◌≡◌, refl, true, false, none, some, [], ◌∷◌}
use unify_llm.Config.{AppConfig, ProviderConfig, openai}
use unify_llm.Routing.{registry}
use unify_llm.Monitor.{Env, new_monitor}
use unify_llm.Users.Model.{empty}
use unify_llm.Users.Points.{Usage}
use unify_llm.Proxy.{
  Request, openai_api, Rates, Called, answered, failed_with, Upstream, OpenStream, World,
  proxy_call, deduct_after_success,
}
use unify_llm.Proxy.Streams.{aborted, exhausted, end_stream}
use unify_llm.Proxy.Lifecycle.{read_reply, leaked, proxy_call-active}
use unify_llm.Proxy.Charges.{IsCharged, proxy_call-IsCharged, end_stream-charge}

abbrev deepseek : ProviderConfig
deepseek = record {
  type = openai;
  base_url = "https://api.deepseek.com";
  api_key = "k";
  enabled = true;
  max_retries = none;
  models = "deepseek-chat" ∷ "backup" ∷ [];
}

abbrev config : AppConfig
config = record {
  defaults = record {
    max_retries = 2;
    fallback_model = some "backup";
    raise_max_tokens_to_model_limit = false;
  };
  providers = ("deepseek", deepseek) ∷ [];
  aliases = [];
  pricing = record { per_million_input = 1; per_million_output = 2; models = [] };
  model_limits = [];
}

abbrev request : Request
request = record {
  protocol = openai_api;
  path = "/v1/chat/completions";
  model = "deepseek-chat";
  stream = true;
  body = record { max_tokens = none; max_completion_tokens = none };
  user = "1";
  user_id = some 1;
  username = "ann";
  client = [];
}

abbrev env : Env
env = record { now = 20; monotonic = 20; store_works = true }

-- The first attempt fails, the second streams.
abbrev answer : ℕ → Called
answer zero = failed_with 502 "no route"
answer (suc n) = answered 200 0 0

abbrev upstream : Upstream
upstream idx rt body = record { rid = "r"; started = 10; called = answer idx; env = env }

abbrev world : World
world = record { monitor = new_monitor 500 2 none none env; users = empty }

abbrev rates : Rates
rates = record { prompt = 1000000; completion = 2000000 }

abbrev usage : Usage
usage = record { prompt_tokens = 1500; completion_tokens = 2500; note = "stream" }

proxy_call-active_example :
    (read_reply aborted rates
      (some 1)
      usage
      env
      (proxy_call (registry config) rates request upstream world)).monitor.active
    ≡ world.monitor.active
      + leaked aborted (proxy_call (registry config) rates request upstream world).0
proxy_call-active_example =
    proxy_call-active (registry config) rates request upstream world aborted usage env

proxy_call-IsCharged_example :
    IsCharged rates (some 1) empty (proxy_call (registry config) rates request upstream world)
proxy_call-IsCharged_example = proxy_call-IsCharged (registry config) rates request upstream world

abbrev stream : OpenStream
stream = record { rid = "r"; provider_id = "deepseek"; started = 10; status = 200; ended = false }

end_stream-charge_example :
    (end_stream exhausted rates (some 1) usage env (stream, world)).1.users
    ≡ deduct_after_success rates (some 1) usage 20 empty
end_stream-charge_example = end_stream-charge exhausted rates (some 1) usage env stream world refl
