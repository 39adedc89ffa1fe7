-- ===== src/Tests/Floats.antt =====
-- Witnesses for the floating-point cell.
use ohnotel.Base.{◌+◌, ◌≡◌, refl, true, false, List, [], ◌∷◌, ◌++◌}
use ohnotel.Atomic.Float.{Event, event, read, exchange, exchange_at, run}
use ohnotel.Atomic.Float.Swaps.{Ordered, entered, pending, run_lem}

-- Two calls that read 0; the second one ends first, and the first one must try again.
abbrev schedule : List Event
schedule =
    Event.enter (λ x. x + 5)
    ∷ Event.enter (λ x. x + x + 7)
    ∷ Event.attempt 0 true
    ∷ Event.attempt 0 false
    ∷ Event.attempt 0 false
    ∷ Event.attempt 0 false
    ∷ []

run-schedule : run schedule (0, []) ≡ (12, [])
unfolding run event read exchange exchange_at
run-schedule = refl

run_lem_example :
    Ordered 0
      (entered schedule ++ pending [])
      (pending (run schedule (0, [])).1)
      (run schedule (0, [])).0
run_lem_example = run_lem schedule 0 []
