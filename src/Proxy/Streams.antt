-- ===== src/Proxy/Streams.antt =====
-- The end of a streamed answer: `event_gen` and `_finish` in `_proxy_call` of unify_llm/app.py.
use unify_llm.Prelude.{ℕ, String, Bool, true, false, Option, none, some, if◌then◌else◌}
use unify_llm.Monitor.{Env, Ended, cancelled, end}
use unify_llm.Users.Points.{Usage}
use unify_llm.Proxy.{Rates, OpenStream, World, deduct_after_success, ended_by}

-- How the generator of a streamed answer stops: the upstream is done, the client has gone, the
-- upstream breaks off, or another exception that is no `Exception` stops the generator. One that is
-- closed before its first step has never run, and its `finally` does not run.
pub data StreamEnd : Type 0 where
  exhausted aborted interrupted never_started : StreamEnd
  broke_off : String → StreamEnd

-- `_finish`, with the usage that the sniffer has read
unfoldable pub finish_stream :
    Rates → Option ℕ → Usage → Ended → Bool → Env → OpenStream × World → OpenStream × World
unfolding deduct_after_success
finish_stream r user usage e deduct env (o, w) = if o.ended then (o, w) else (
  record o { ended = true },
  record {
    monitor = end o.rid o.provider_id e env w.monitor;
    users = if deduct then deduct_after_success r user usage env.now w.users else w.users;
  },
)

-- The part of `event_gen` before its `finally`
unfoldable pub stream_stops :
    StreamEnd → Rates → Option ℕ → Usage → Env → OpenStream × World → OpenStream × World
unfolding finish_stream
stream_stops exhausted r user u env (o, w) =
    finish_stream r user u
      (ended_by o.status none o.started u.prompt_tokens u.completion_tokens none) true env (o, w)
stream_stops aborted r user u env (o, w) =
    finish_stream r user u
      (ended_by 499 (some "client aborted") o.started u.prompt_tokens u.completion_tokens
        (some cancelled))
      false env (o, w)
stream_stops (broke_off msg) r user u env (o, w) =
    finish_stream r user u
      (ended_by 502 (some msg) o.started u.prompt_tokens u.completion_tokens none) false env (o, w)
stream_stops interrupted r user u env (o, w) = (o, w)
stream_stops never_started r user u env (o, w) = (o, w)

-- The `finally` of `event_gen`
unfoldable pub closed :
    Rates → Option ℕ → Usage → Env → OpenStream → OpenStream × World → OpenStream × World
unfolding finish_stream
closed r user u env o p =
    finish_stream r user u
      (ended_by 499 (some "stream closed") o.started u.prompt_tokens u.completion_tokens
        (some cancelled))
      false env p

-- `event_gen` from its end on, `finally` included if it has started
unfoldable pub end_stream :
    StreamEnd → Rates → Option ℕ → Usage → Env → OpenStream × World → OpenStream × World
unfolding stream_stops closed
end_stream never_started r user u env (o, w) = (o, w)
end_stream how r user u env (o, w) = closed r user u env o (stream_stops how r user u env (o, w))
