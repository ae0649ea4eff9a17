-- ===== src/Breaker/Tests.antt =====
-- A circuit breaker with three failures allowed, ten seconds of rest and two probing calls.
use high_performance_event_s.Common.{◌≡◌, refl, true, [], ◌∷◌, Option, none, some, arith, String}
use high_performance_event_s.Common.Int.{pos, ◌-ℤ◌}
use high_performance_event_s.Breaker.{closed, open_, half_open, Config, Breaker, execute}
use high_performance_event_s.Breaker.Validity.{IsValid, Along, execute-IsValid, execute-Along}
use high_performance_event_s.Breaker.Trips.{Call, run, run-trips}

abbrev settings : Config
settings = record { failure_threshold = pos 3; reset_timeout = pos 10; half_open_max_calls = pos 2 }

abbrev fresh : Breaker
fresh = record {
  state = closed;
  consecutive_failures = 0;
  last_failure_time = pos 0;
  success_count = 0;
  has_callback = true;
  config = settings;
}

abbrev tripped : Breaker
tripped = record fresh { state = open_; consecutive_failures = 3; last_failure_time = pos 5 }

abbrev probing : Breaker
probing = record fresh { state = half_open; consecutive_failures = 3 }

abbrev down : Option String
down = some "down"

abbrev failing : Call String
failing = record { checked = pos 5; now = pos 5; result = some "down" }

abbrev working : Call String
working = record { checked = pos 20; now = pos 20; result = none }

trips : run (failing ∷ failing ∷ failing ∷ []) fresh ≡ tripped
unfolding run execute
trips = refl

probe_closes : (run (working ∷ working ∷ []) tripped).state ≡ closed
unfolding run execute ◌-ℤ◌
probe_closes = refl

execute-IsValid_example : IsValid (execute (pos 20) (pos 20) down probing).after
execute-IsValid_example = execute-IsValid (pos 20) (pos 20) down probing (ground arith)

execute-Along_example :
    Along open_
      (execute (pos 20) (pos 20) down tripped).notes
      (execute (pos 20) (pos 20) down tripped).after.state
execute-Along_example = execute-Along (pos 20) (pos 20) down tripped refl

run-trips_example :
    ((run (failing ∷ failing ∷ failing ∷ []) fresh).consecutive_failures ≡ 3)
    × ((run (failing ∷ failing ∷ failing ∷ []) fresh).state ≡ open_)
run-trips_example =
    run-trips (failing ∷ failing ∷ failing ∷ []) fresh
      (("down", refl), (("down", refl), (("down", refl), tt))) refl (omega arith) (omega arith)
