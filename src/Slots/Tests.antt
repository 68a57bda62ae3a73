-- ===== src/Slots/Tests.antt =====
-- A history of the middleware of unify_llm/app.py at concrete events.
use unify_llm.Prelude.{◌≤◌, ◌<◌, ◌≡◌, true, List, [], ◌∷◌, count_if}
use unify_llm.Prelude.Int.{pos}
use unify_llm.Slots.{Event, run, arrive, poll, respond, close, raise}
use unify_llm.Slots.Conservation.{holds_slot, waits, start, slots_conserved}
use unify_llm.Slots.Caps.{traffic_capped}

abbrev traffic : List Event
traffic =
    arrive "/v1/messages" "ann" 0
    ∷ arrive "/v1/messages" "bob" 1
    ∷ arrive "/v1/models" "bob" 2
    ∷ respond 0 true
    ∷ poll 1 3
    ∷ close 0
    ∷ close 0
    ∷ poll 1 4
    ∷ raise 1
    ∷ []

slots_conserved_example :
    let g = run traffic (start (pos 0) (pos 1) (pos 1) (pos 30)) in
    (g.limiter.active ≡ count_if holds_slot g.requests)
    × (g.limiter.queued ≡ count_if waits g.requests)
slots_conserved_example = slots_conserved (pos 0) (pos 1) (pos 1) (pos 30) traffic

traffic_capped_example :
    let g = run traffic (start (pos 0) (pos 1) (pos 1) (pos 30)) in
    (0 < 1 → count_if holds_slot g.requests ≤ 1) × (0 < 1 → count_if waits g.requests ≤ 1)
traffic_capped_example =
    traffic_capped (pos 0) 1 1 (pos 30) traffic
      (tt, (tt, (tt, (tt, (tt, (tt, (tt, (tt, (tt, tt)))))))))
