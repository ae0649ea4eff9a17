-- ===== src/Breaker/Trips.antt =====
-- When the circuit opens, rejects, and closes again: whole runs of calls.
use high_performance_event_s.Common.{
  ◌+◌, ◌≡◌, ◌⊎◌, true, false, List, [], ◌∷◌, Option, none, some, arith, if◌then◌else◌, length,
}
use high_performance_event_s.Common.Int.{ℤ, pos, ◌≤ℤ◌, ltb_ℤ, leb_ℤ, ◌-ℤ◌}
use high_performance_event_s.Breaker.{
  closed, open_, half_open, Breaker, done, failed, circuit_open, execute,
}

-- A call, with what decides it.
pub record Call {ℓ} (E : Type ℓ) : Type ℓ where
  pub checked : ℤ
  pub now : ℤ
  pub result : Option E

module _ {ℓ} {E : Type ℓ} where
  -- Calls one after the other.
  unfoldable pub run : List (Call E) → Breaker → Breaker
  run [] b = b
  run (c ∷ calls) b = run calls (execute c.checked c.now c.result b).after

  -- Every call of the list fails, or every one succeeds.
  abbrev pub AllFail : List (Call E) → Type ℓ
  AllFail [] = Unit
  AllFail (c ∷ calls) = ((e : E) × (c.result ≡ some e)) × AllFail calls

  abbrev pub AllSucceed : List (Call E) → Type ℓ
  AllSucceed [] = Unit
  AllSucceed (c ∷ calls) = (c.result ≡ none) × AllSucceed calls

  fail_closed :
      (checked now : ℤ) (e : E) (b : Breaker)
      → b.state ≡ closed
      → let x = execute checked now (some e) b in
        (x.after.consecutive_failures ≡ b.consecutive_failures + 1)
        × (x.after.config ≡ b.config)
        × (x.after.state ≡ (
            if leb_ℤ b.config.failure_threshold (pos (b.consecutive_failures + 1))
            then open_
            else closed))
  unfolding execute
  fail_closed checked now e b h = ground arith

  -- A closed circuit that fails without a success in between stays closed below the threshold and has
  -- counted every failure; with the failure that reaches the threshold it is open.
  pub run-trips :
      (calls : List (Call E)) (b : Breaker)
      → AllFail calls
      → b.state ≡ closed
      → pos (b.consecutive_failures + 1) ≤ℤ b.config.failure_threshold
      → pos (b.consecutive_failures + length calls) ≤ℤ b.config.failure_threshold
      → ((run calls b).consecutive_failures ≡ b.consecutive_failures + length calls)
        × ((run calls b).state ≡ (
            if leb_ℤ b.config.failure_threshold (pos (b.consecutive_failures + length calls))
            then open_
            else closed))
  unfolding run
  run-trips [] b f h w k = ground arith
  run-trips (c ∷ []) b f h w k = ground (arith, fail_closed c.checked c.now f.0.0 b h)
  run-trips (c ∷ d ∷ calls) b f h w k =
      let (counted, same, state) = fail_closed c.checked c.now f.0.0 b h in
      ground (
        arith,
        f.0.1,
        counted,
        same,
        state,
        run-trips (d ∷ calls) (execute c.checked c.now (some f.0.0) b).after f.1,
      )

  succeed_half_open :
      (c : Call E) (b : Breaker)
      → c.result ≡ none
      → b.state ≡ half_open
      → let after = (execute c.checked c.now c.result b).after in
        let enough = leb_ℤ b.config.half_open_max_calls (pos (b.success_count + 1)) in
        (after.config ≡ b.config)
        × (after.state ≡ (if enough then closed else half_open))
        × (after.success_count ≡ (if enough then 0 else b.success_count + 1))
        × (enough ≡ true → after.consecutive_failures ≡ 0)
  unfolding execute
  succeed_half_open c b r h = ground arith

  -- A half-open circuit whose calls all succeed stays half-open until it has let through as many calls
  -- as its setting says, and with the last of them it is closed, its counters at zero.
  pub run-recovers :
      (calls : List (Call E)) (b : Breaker)
      → AllSucceed calls
      → b.state ≡ half_open
      → pos (b.success_count + 1) ≤ℤ b.config.half_open_max_calls
      → pos (b.success_count + length calls) ≤ℤ b.config.half_open_max_calls
      → let after = run calls b in
        let enough = leb_ℤ b.config.half_open_max_calls (pos (b.success_count + length calls)) in
        (after.state ≡ (if enough then closed else half_open))
        × (after.success_count ≡ (if enough then 0 else b.success_count + length calls))
        × (enough ≡ true → after.consecutive_failures ≡ 0)
  unfolding run
  run-recovers [] b f h w k = ground arith
  run-recovers (c ∷ []) b f h w k = ground (arith, succeed_half_open c b f.0 h)
  run-recovers (c ∷ d ∷ calls) b f h w k =
      let (same, state, counted, zeroed) = succeed_half_open c b f.0 h in
      ground (
        arith,
        same,
        state,
        counted,
        run-recovers (d ∷ calls) (execute c.checked c.now c.result b).after f.1,
      )

module _ {ℓ} {E : Type ℓ} (checked now : ℤ) (result : Option E) (b : Breaker) where
  -- An open circuit that is called before its timeout has passed does not call the function, returns
  -- `ErrCircuitOpen` and stays as it is; from the timeout on it calls the function.
  pub execute_open_lem :
      b.state ≡ open_
      → let x = execute checked now result b in
        let early = ltb_ℤ (checked -ℤ b.last_failure_time) b.config.reset_timeout in
        (x.called ≡ (if early then false else true))
        × (early ≡ true → (x.reply ≡ circuit_open) × (x.after ≡ b))
  unfolding execute
  execute_open_lem h = ground arith

  -- `ErrCircuitOpen` is returned exactly where the function is not called, which happens only to an
  -- open circuit; any other reply is what the function returned.
  pub reply_iff_called :
      let x = execute checked now result b in
      ((x.called ≡ false) × (x.reply ≡ circuit_open) × (x.after ≡ b) × (b.state ≡ open_))
      ⊎ ((x.called ≡ true) × (x.reply ≡ (elim result [ none ↦ done | some e ↦ failed e ])))
  unfolding execute
  reply_iff_called = ground arith
