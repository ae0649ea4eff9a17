-- ===== src/Breaker.antt =====
-- The circuit breaker (pkg/circuitbreaker/circuit_breaker.go). `Execute` holds the mutex throughout,
-- so each call is one step. The function that it protects is given by its result, which the step
-- uses only where the function is called; each reading of the clock is an argument.
pub mod Validity
pub mod Trips
mod Tests
use high_performance_event_s.Common.{
  ℕ, suc, ◌+◌, Bool, true, false, ◌&&◌, List, [], ◌∷◌, ◌++◌, Option, none, some, if◌then◌else◌, not,
}
use high_performance_event_s.Common.Int.{ℤ, pos, leb_ℤ, ◌-ℤ◌}

pub data State : Type 0 where
  closed open_ half_open : State

pub record Config : Type 0 where
  pub failure_threshold : ℤ
  pub reset_timeout : ℤ
  pub half_open_max_calls : ℤ

pub record Breaker : Type 0 where
  pub state : State
  pub consecutive_failures : ℕ
  pub last_failure_time : ℤ
  pub success_count : ℕ
  pub has_callback : Bool
  pub config : Config

-- `if n <= 0 { n = fallback }`
abbrev pub or_default : ℤ → ℤ → ℤ
or_default n fallback = if leb_ℤ n (pos 0) then fallback else n

-- `New`
unfoldable pub new_breaker : Config → ℤ → Breaker
new_breaker c now = record {
  state = closed;
  consecutive_failures = 0;
  last_failure_time = now;
  success_count = 0;
  has_callback = false;
  config = record {
    failure_threshold = or_default c.failure_threshold (pos 5);
    reset_timeout = or_default c.reset_timeout (pos 60_000_000_000);
    half_open_max_calls = or_default c.half_open_max_calls (pos 1);
  };
}

-- `SetOnStateChange`; only whether there is a callback matters.
unfoldable pub set_on_state_change : Bool → Breaker → Breaker
set_on_state_change given b = record b { has_callback = given }

-- The callbacks that a call starts: the old and the new state of each.
abbrev pub Notes : Type 0
Notes = List (State × State)

-- `changeState`
unfoldable pub change_state : State → Breaker → Breaker × Notes
change_state new_state b =
    (record b { state = new_state }, if b.has_callback then (b.state, new_state) ∷ [] else [])

-- What `Execute` returns: nil, the error of the function, or `ErrCircuitOpen`.
pub data Reply {ℓ} (E : Type ℓ) : Type ℓ where
  done : Reply E
  failed : E → Reply E
  circuit_open : Reply E

pub record Executed {ℓ} (E : Type ℓ) : Type ℓ where
  pub after : Breaker
  pub notes : Notes
  pub called : Bool
  pub reply : Reply E

module _ {ℓ} {E : Type ℓ} where
  -- `executeClosed`; `now` is read after a failure.
  unfoldable pub execute_closed : ℤ → Option E → Breaker → Executed E
  unfolding change_state
  execute_closed now (some e) b =
      let counted = record b {
        consecutive_failures = b.consecutive_failures + 1;
        last_failure_time = now;
      } in
      if leb_ℤ b.config.failure_threshold (pos (b.consecutive_failures + 1))
      then (let (opened, notes) = change_state open_ counted in
          record { after = opened; notes = notes; called = true; reply = failed e })
      else record { after = counted; notes = []; called = true; reply = failed e }
  execute_closed now none b = record {
    after = record b { consecutive_failures = 0 };
    notes = [];
    called = true;
    reply = done;
  }

  -- `executeHalfOpen`
  unfoldable pub execute_half_open : ℤ → Option E → Breaker → Executed E
  unfolding change_state
  execute_half_open now (some e) b =
      let (opened, notes) = change_state open_ b in
      record {
        after = record opened {
          last_failure_time = now;
          consecutive_failures = 1;
          success_count = 0;
        };
        notes = notes;
        called = true;
        reply = failed e;
      }
  execute_half_open now none b =
      let counted = record b { success_count = b.success_count + 1 } in
      if leb_ℤ b.config.half_open_max_calls (pos (b.success_count + 1))
      then (let (reset, notes) = change_state closed counted in
          record {
            after = record reset { consecutive_failures = 0; success_count = 0 };
            notes = notes;
            called = true;
            reply = done;
          })
      else record { after = counted; notes = []; called = true; reply = done }

  -- `executeOpen`; `checked` is the reading of `time.Since`.
  unfoldable pub execute_open : ℤ → ℤ → Option E → Breaker → Executed E
  unfolding change_state execute_half_open
  execute_open checked now result b =
      if leb_ℤ b.config.reset_timeout (checked -ℤ b.last_failure_time)
      then (let (trying, notes) = change_state half_open b in
          let run = execute_half_open now result (record trying { success_count = 0 }) in
          record run { notes = notes ++ run.notes })
      else record { after = b; notes = []; called = false; reply = circuit_open }

  execute_in : State → ℤ → ℤ → Option E → Breaker → Executed E
  unfolding execute_closed execute_open execute_half_open
  execute_in closed checked now result b = execute_closed now result b
  execute_in open_ checked now result b = execute_open checked now result b
  execute_in half_open checked now result b = execute_half_open now result b

  -- `Execute`
  unfoldable pub execute : ℤ → ℤ → Option E → Breaker → Executed E
  unfolding execute_in
  execute checked now result b = execute_in b.state checked now result b

is_closed : State → Bool
is_closed closed = true
is_closed _ = false

-- `Reset`
unfoldable pub reset : ℤ → Breaker → Breaker × Notes
unfolding is_closed
reset now b = (
  record b { state = closed; consecutive_failures = 0; success_count = 0; last_failure_time = now },
  if b.has_callback && not (is_closed b.state) then (b.state, closed) ∷ [] else [],
)
