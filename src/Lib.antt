-- ===== src/Lib.antt =====
-- unify-llm: a gateway that puts many model providers behind one OpenAI and Anthropic API.
-- A request passes the rate limit middleware, the access control and the points gate, is routed to a
-- provider, and leaves a row in the monitor and a charge in the user store.
--
-- RateLimit      unify_llm/rate_limit.py, class RateLimiter: token buckets, slots, queue counter
-- Slots          unify_llm/app.py, rate_limit_middleware: the life of a request's slot
-- Config         unify_llm/config.py: the configuration's data and its lookups
-- Routing        unify_llm/registry.py, class Registry: from a model name to a provider
-- ModelCatalog   unify_llm/app.py, user_model_catalog: the models that a user may call
-- Monitor        unify_llm/monitor.py, class Monitor: requests in flight, counters, totals, log
-- Upstream       unify_llm/adapters/base.py, _request_with_retries: the retry loop
-- MaxTokens      unify_llm/convert.py, apply_max_tokens_policy: the output limit
-- Proxy          unify_llm/app.py, _proxy_call and its points gate: attempts, rows, charges;
--                Proxy/Streams the end of a streamed answer
-- Access         unify_llm/app.py, gateway_auth: master key, user keys, sessions, loopback
-- LoginGuard     unify_llm/app.py, class LoginGuard: failed logins by address and account
-- Portal         unify_llm/app.py, auth_register to me_patch_profile: LoginGuard and UserStore together
-- Sniffer        unify_llm/monitor.py, StreamUsageSniffer: the token counts in a stream;
--                Sniffer/Feed its line buffer
-- Users          unify_llm/users.py, class UserStore: Accounts, Points, Sessions, Keys
-- UsageWindows   unify_llm/usage_windows.py: usage by window and by bucket
-- Json           the JSON values that the converters pass on, and the json module as a parameter
-- Convert        unify_llm/convert.py: requests, tools and whole answers between the two protocols
-- StopReasons    unify_llm/convert.py: stop reasons and finish reasons
-- Stream         unify_llm/convert.py: the two stream converters, on the JSON objects of the streams;
--                Stream/Protocol is the client that a converted stream has to satisfy
-- Prelude        shared helpers: Boolean tests, lists, integers, dictionaries, text, time
--
-- State is passed explicitly: a method becomes a function from its arguments and the state to its
-- answer and the new state; a lock or the event loop makes each call one step, and a history is a list
-- of calls or events. Each model file keeps the source's names; its children hold what it guarantees
-- and, in Tests, runs at concrete inputs.
--
-- Time is in nanoseconds. A rate limiter's token is 60 * 10^9 units, so that a refill is an exact
-- number of units; the source's floating point rounds it. The points that a call costs are exact
-- products too, where the source's floats may be off by one point next to a whole number. Prices are in
-- millionths of a unit of the rates. Random tokens, salts, hashes and the clocks are arguments or fields
-- of `Platform` and `Env`. Lists replace SQLite's tables, in the order of their ids. No definition needs
-- fuel: every loop is a recursion on a list, and the waiting loop of the middleware is a list of poll
-- events.
--
-- The converters are modelled on bodies of the documented shape: a text that is missing or null is
-- empty, and what Python raises for other shapes is left out. An infinite `max_tokens`, for which
-- `int` raises OverflowError, is left out as well. `json.dumps` and `json.loads` are a
-- parameter, which a theorem asks to load what was dumped where it depends on that.
--
-- Not modelled: HTTP, JSON and SSE as bytes, SQLite, the schema migrations, the sorted listings of the
-- admin pages, the web pages, the scripts.
pub mod Prelude
pub mod RateLimit
pub mod Slots
pub mod Config
pub mod Routing
pub mod ModelCatalog
pub mod Monitor
pub mod Users
pub mod UsageWindows
pub mod Upstream
pub mod MaxTokens
pub mod Proxy
pub mod Access
pub mod LoginGuard
pub mod Portal
pub mod Sniffer
pub mod StopReasons
pub mod Json
pub mod Convert
pub mod Stream
