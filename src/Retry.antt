-- ===== src/Retry.antt =====
-- Retries with exponential backoff (pkg/retry/retry.go). Floating-point numbers, the random source,
-- the context and the function that is tried are parameters. A duration is in nanoseconds.
pub mod Backoff
pub mod Attempts
mod Tests
use high_performance_event_s.Common.{
  ℕ, zero, suc, ◌+◌, ◌/◌, Bool, true, false, not, Option, none, some, ltb, if◌then◌else◌,
}
use high_performance_event_s.Common.Int.{ℤ, pos, ltb_ℤ, leb_ℤ, pos_part}
use high_performance_event_s.Common.Outcome.{Outcome, ok, err}
use high_performance_event_s.Store.Paging.{wrap_64}

-- What the package takes from Go's arithmetic: the constant 2.0, the test `x <= 0`, and
-- `time.Duration(float64(initial) * math.Pow(multiplier, float64(attempt)))`.
pub record Floats : Type 1 where
  pub Float : Type 0
  pub two : Float
  pub not_positive : Float → Bool
  pub scale : ℤ → Float → ℕ → ℤ

-- What `Do` returns, or a panic of `rand.Int63n` for a bound that is not positive.
pub data Result (E : Type 0) : Type 0 where
  succeeded : Result E
  failed : E → Result E
  cancelled : Result E
  panicked : Result E

module _ (F : Floats) (E : Type 0) where
  -- `Config`
  pub record Config : Type 0 where
    pub max_retries : ℤ
    pub initial_backoff : ℤ
    pub max_backoff : ℤ
    pub backoff_multiplier : F.Float
    pub jitter : Bool
    pub is_retryable : Option (E → Bool)

  -- `DefaultConfig`
  unfoldable pub default_config : Config
  default_config = record {
    max_retries = pos 3;
    initial_backoff = pos 100_000_000;
    max_backoff = pos 30_000_000_000;
    backoff_multiplier = F.two;
    jitter = true;
    is_retryable = none;
  }

  -- The defaults that `Do` puts in the place of what is out of range
  unfoldable pub normalise : Config → Config
  normalise c = record c {
    max_retries = if ltb_ℤ c.max_retries (pos 0) then pos 0 else c.max_retries;
    initial_backoff =
        if leb_ℤ c.initial_backoff (pos 0) then pos 100_000_000 else c.initial_backoff;
    max_backoff = if leb_ℤ c.max_backoff (pos 0) then pos 30_000_000_000 else c.max_backoff;
    backoff_multiplier =
        if F.not_positive c.backoff_multiplier then F.two else c.backoff_multiplier;
  }

  -- The backoff of an attempt, capped
  unfoldable pub capped_backoff : ℕ → Config → ℤ
  capped_backoff attempt c =
      let backoff = F.scale c.initial_backoff c.backoff_multiplier attempt in
      if ltb_ℤ c.max_backoff backoff then c.max_backoff else backoff

  -- `calculateBackoff`; `draw n` is what `rand.Int63n(n)` returns, and `none` is its panic. Only a
  -- backoff of at least 2 gets a jitter, so both summands are natural numbers.
  unfoldable pub calculate_backoff : (ℕ → ℕ) → ℕ → Config → Option ℤ
  unfolding capped_backoff
  calculate_backoff draw attempt c =
      let backoff = capped_backoff attempt c in
      if not c.jitter
      then some backoff
      else if ltb 0 (pos_part backoff / 2)
      then some (wrap_64 (pos_part backoff + draw (pos_part backoff / 2)))
      else none

  -- `cfg.IsRetryable == nil || cfg.IsRetryable(err)`
  unfoldable pub may_retry : Config → E → Bool
  may_retry c e = elim (c.is_retryable) [ none ↦ true | some allows ↦ allows e ]

  -- What a run meets, by the number of the attempt: whether the context is done before it, what the
  -- function returns, what is drawn for its jitter, and whether the context ends the wait after it.
  pub record Surroundings : Type 0 where
    pub done_before : ℕ → Bool
    pub try_it : ℕ → Option E
    pub draw : ℕ → ℕ → ℕ
    pub done_waiting : ℕ → Bool

  module _ (s : Surroundings) (c : Config) where
    -- The loop of `Do` from an attempt on, with the number of retries that are left; the number is
    -- that of the calls of the function.
    unfoldable pub loop : ℕ → ℕ → Result E × ℕ
    unfolding calculate_backoff may_retry
    loop zero attempt = elim (s.done_before attempt) [
      | true ↦ (cancelled, 0)
      | false ↦ elim (s.try_it attempt) [ none ↦ (succeeded, 1) | some e ↦ (failed e, 1) ]
    ]
    loop (suc left) attempt =
        let rest = loop left (suc attempt) in
        elim (s.done_before attempt) [
          | true ↦ (cancelled, 0)
          | false ↦ elim (s.try_it attempt) [
            | none ↦ (succeeded, 1)
            | some e ↦ elim (may_retry c e) [
              | false ↦ (failed e, 1)
              | true ↦ elim (calculate_backoff (s.draw attempt) attempt c) [
                | none ↦ (panicked, 1)
                | some wait ↦ elim (s.done_waiting attempt) [
                  | true ↦ (cancelled, 1)
                  | false ↦ (rest.0, suc rest.1)
                ]
              ]
            ]
          ]
        ]

  -- `Do`
  unfoldable pub do_retry : Surroundings → Config → Result E × ℕ
  unfolding normalise loop
  do_retry s c = let n = normalise c in loop s n (pos_part n.max_retries) 0

  -- `SimpleRetry`
  unfoldable pub simple_retry : Surroundings → Result E × ℕ
  unfolding do_retry default_config
  simple_retry s = do_retry s default_config

  -- `SimpleRetryWithMaxRetries`
  unfoldable pub simple_retry_with_max_retries : ℤ → Surroundings → Result E × ℕ
  unfolding do_retry default_config
  simple_retry_with_max_retries n s = do_retry s (record default_config { max_retries = n })
