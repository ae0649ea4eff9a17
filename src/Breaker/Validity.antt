-- ===== src/Breaker/Validity.antt =====
-- What holds of a circuit breaker between two calls, and the transitions that it makes.
use high_performance_event_s.Common.{◌+◌, ◌≡◌, true, [], ◌∷◌, Option, arith}
use high_performance_event_s.Common.Int.{ℤ, pos, ◌≤ℤ◌}
use high_performance_event_s.Breaker.{
  State, closed, open_, half_open, Config, Breaker, new_breaker, execute, reset, Notes,
}

-- The settings are positive; a closed circuit has failed fewer times in a row than the threshold, and
-- a half-open one has succeeded fewer times than it takes to close it.
pub record IsValid (b : Breaker) : Type 0 where
  pub threshold_pos : pos 1 ≤ℤ b.config.failure_threshold
  pub timeout_pos : pos 1 ≤ℤ b.config.reset_timeout
  pub max_calls_pos : pos 1 ≤ℤ b.config.half_open_max_calls
  pub closed_below :
      b.state ≡ closed → pos (b.consecutive_failures + 1) ≤ℤ b.config.failure_threshold
  pub half_open_below :
      b.state ≡ half_open → pos (b.success_count + 1) ≤ℤ b.config.half_open_max_calls

-- A new breaker is valid, whatever settings it is given.
pub new_breaker-IsValid : (c : Config) (now : ℤ) → IsValid (new_breaker c now)
unfolding new_breaker
new_breaker-IsValid c now = ground arith

-- Every call of `Execute` keeps the breaker valid: its settings are positive, a closed circuit has
-- failed fewer times in a row than the threshold, and a half-open one has succeeded fewer times than it
-- takes to close it.
pub execute-IsValid {ℓ} :
    {E : Type ℓ} (checked now : ℤ) (result : Option E) (b : Breaker)
    → IsValid b
    → IsValid (execute checked now result b).after
unfolding execute
execute-IsValid checked now result b v = ground arith

pub reset-IsValid : (now : ℤ) (b : Breaker) → IsValid b → IsValid (reset now b).0
unfolding reset
reset-IsValid now b v = ground arith

-- The transitions of the state machine.
pub data Edge : State → State → Type 0 where
  trip : Edge closed open_
  probe : Edge open_ half_open
  relapse : Edge half_open open_
  recover : Edge half_open closed

-- A way from one state to another, and the pairs of states along it.
pub data Along : State → Notes → State → Type 0 where
  stay : {s : State} → Along s [] s
  go : {s t u : State} {notes : Notes} → Edge s t → Along t notes u → Along s ((s, t) ∷ notes) u

-- With a callback set, the callbacks that a call starts are, in order, the transitions that lead from
-- the state before to the state after, each an edge of the state machine.
pub execute-Along {ℓ} :
    {E : Type ℓ} (checked now : ℤ) (result : Option E) (b : Breaker)
    → b.has_callback ≡ true
    → Along b.state (execute checked now result b).notes (execute checked now result b).after.state
unfolding execute
execute-Along checked now result b h = grind (arith, stay, go, trip, probe, relapse, recover)
