-- ===== src/Proxy/Lifecycle.antt =====
-- `_proxy_call` of unify_llm/app.py from its start to the end of its answer: the count of active
-- requests.
use unify_llm.Prelude.{ℕ, ◌+◌, ◌-◌, ◌≡◌, refl, Bool, true, false, Option, arith}
use unify_llm.Monitor.{Env, Ended, completed}
use unify_llm.Routing.{Registry}
use unify_llm.Users.Points.{Usage}
use unify_llm.Proxy.{
  Request, Rates, Upstream, OpenStream, Reply, raised, payment_required, error_reply, json_reply,
  streaming, World, proxy_call,
}
use unify_llm.Proxy.Streams.{
  StreamEnd, exhausted, aborted, broke_off, interrupted, never_started, finish_stream, stream_stops,
  closed, end_stream,
}
use unify_llm.Proxy.Rows.{finish_active, ended}
use unify_llm.Proxy.Leaves.{IsOpen, Leaves, proxy_call-Leaves}

-- One for a stream whose generator has never run.
abbrev unstarted : StreamEnd → ℕ
unstarted never_started = 1
unstarted how = 0

-- The rows that a call leaves in flight for good: that of an attempt which an exception outside of the
-- loop's `try` has stopped, and that of a stream whose generator has never run.
abbrev pub leaked : StreamEnd → Reply → ℕ
leaked how raised = 1
leaked how (streaming o) = unstarted how
leaked how (payment_required bal) = 0
leaked how (error_reply status) = 0
leaked how (json_reply status eff) = 0

-- What is left when a stream has been finished.
abbrev Finished : ℕ → OpenStream × World → Type 0
Finished n (o, w) = (o.ended ≡ true) × (w.monitor.active ≡ n)

module _ (r : Rates) (user : Option ℕ) (u : Usage) (env : Env) where
  finish_stream-Finished :
      (e : Ended) (deduct : Bool) (o : OpenStream) (w : World)
      → IsOpen o w
      → Finished (w.monitor.active - 1) (finish_stream r user u e deduct env (o, w))
  unfolding finish_stream
  finish_stream-Finished e deduct o w (unended, st, x, known, there) = rw unended (
    refl,
    rw (ended o.rid o.provider_id e env w.monitor st x known there)
        (finish_active o.rid o.provider_id st (completed e x env w.monitor) env w.monitor),
  )

  finish_stream-again :
      (n : ℕ) (e : Ended) (deduct : Bool) (p : OpenStream × World)
      → Finished n p
      → Finished n (finish_stream r user u e deduct env p)
  unfolding finish_stream
  finish_stream-again n e deduct (o, w) h = rw h.0 (refl, h.1)

  finish_stream-active :
      (n : ℕ) (e : Ended) (deduct : Bool) (o : OpenStream) (w : World)
      → IsOpen o w
      → w.monitor.active ≡ n + 1
      → (finish_stream r user u e deduct env (o, w)).1.monitor.active ≡ n + 0
  finish_stream-active n e deduct o w h more =
      omega (arith, more, (finish_stream-Finished e deduct o w h).1)

  -- A second end changes nothing more.
  twice-active :
      (n : ℕ) (e e' : Ended) (deduct : Bool) (o : OpenStream) (w : World)
      → IsOpen o w
      → w.monitor.active ≡ n + 1
      → (finish_stream r user u e' false env
          (finish_stream r user u e deduct env (o, w))).1.monitor.active
        ≡ n + 0
  twice-active n e e' deduct o w h more =
      let again =
        finish_stream-again (w.monitor.active - 1) e' false
          (finish_stream r user u e deduct env (o, w)) (finish_stream-Finished e deduct o w h) in
      omega (arith, more, again.1)

  -- An open stream loses its row at its end, whatever stops it once it has started.
  end_stream-active :
      (how : StreamEnd) (n : ℕ) (o : OpenStream) (w : World)
      → IsOpen o w
      → w.monitor.active ≡ n + 1
      → (end_stream how r user u env (o, w)).1.monitor.active ≡ n + unstarted how
  unfolding end_stream stream_stops closed
  end_stream-active exhausted n o w h more = twice-active n _ _ true o w h more
  end_stream-active aborted n o w h more = twice-active n _ _ false o w h more
  end_stream-active (broke_off msg) n o w h more = twice-active n _ _ false o w h more
  end_stream-active interrupted n o w h more = finish_stream-active n _ false o w h more
  end_stream-active never_started n o w h more = more

-- What follows an answer: a stream is read to its end.
abbrev pub read_reply : StreamEnd → Rates → Option ℕ → Usage → Env → Reply × World → World
read_reply how r user u env (streaming o, w) = (end_stream how r user u env (o, w)).1
read_reply how r user u env (raised, w) = w
read_reply how r user u env (payment_required bal, w) = w
read_reply how r user u env (error_reply status, w) = w
read_reply how r user u env (json_reply status eff, w) = w

read_reply-active :
    (how : StreamEnd) (r : Rates) (user : Option ℕ) (u : Usage) (env : Env) (n : ℕ)
    (p : Reply × World)
    → Leaves n p
    → (read_reply how r user u env p).monitor.active ≡ n + leaked how p.0
read_reply-active how r user u env n (streaming o, w) (unended, more) =
    end_stream-active r user u env how n o w unended more
read_reply-active how r user u env n (raised, w) h = h
read_reply-active how r user u env n (payment_required bal, w) h = omega (arith, h)
read_reply-active how r user u env n (error_reply status, w) h = omega (arith, h)
read_reply-active how r user u env n (json_reply status eff, w) h = omega (arith, h)

-- Once a call is over, and its stream, if it has one, has stopped in any way, the monitor counts as
-- many active requests as before, except in two cases, in which it counts one more: an exception has
-- left the call while the row of an attempt was in flight, or the generator of its stream was closed
-- before its first step.
pub proxy_call-active :
    (reg : Registry) (r : Rates) (q : Request) (up : Upstream) (w : World) (how : StreamEnd)
    (u : Usage) (env : Env)
    → (read_reply how r q.user_id u env (proxy_call reg r q up w)).monitor.active
      ≡ w.monitor.active + leaked how (proxy_call reg r q up w).0
proxy_call-active reg r q up w how u env =
    read_reply-active how r q.user_id u env w.monitor.active (proxy_call reg r q up w)
      (proxy_call-Leaves reg r q up w)
