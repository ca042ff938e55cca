-- ===== src/Tests/Clock.antt =====
-- Runs of the clock.
use map_api.Prelude.{ℕ, ◌≡◌, List, [], ◌∷◌, arith}
use map_api.Prelude.Checked.{ok}
use map_api.LogicalTime.{Event, draw, receive, run}
use map_api.LogicalTime.Lamport.{IsCausal, run-IsCausal}

abbrev some_events : List Event
some_events = draw ∷ receive 10 ∷ draw ∷ []

run-IsCausal_example :
    (times : List ℕ) × (last : ℕ) × (run some_events 1 ≡ ok (times, last))
    × IsCausal 1 some_events times
run-IsCausal_example = run-IsCausal some_events 1 (omega arith, (omega arith, (omega arith, tt)))
