-- ===== src/Retry/Tests.antt =====
-- Runs of a function that fails a few times.
use high_performance_event_s.Common.{
  ℕ, zero, suc, ◌+◌, ◌<◌, ltb, ◌≡◌, refl, true, false, some, none, arith, Option, if◌then◌else◌,
}
use high_performance_event_s.Common.Int.{pos, pos_part}
use high_performance_event_s.Store.Paging.{wrap_64}
use high_performance_event_s.Retry.{
  Floats, succeeded, panicked, Config, Surroundings, normalise, capped_backoff, calculate_backoff,
  may_retry, loop, do_retry,
}
use high_performance_event_s.Retry.Attempts.{Continues, do_retry-success}

-- Natural numbers for floating-point ones, and a backoff that grows by its start each time.
abbrev floats : Floats
floats = record {
  Float = ℕ;
  two = 2;
  not_positive = λ x. ltb x 1;
  scale = λ initial multiplier attempt. pos (pos_part initial + attempt);
}

abbrev config : Config floats ℕ
config = record {
  max_retries = pos 1;
  initial_backoff = pos 100;
  max_backoff = pos 1_000;
  backoff_multiplier = 2;
  jitter = true;
  is_retryable = some (λ e. ltb e 5);
}

-- A maximum of one nanosecond
abbrev hasty : Config floats ℕ
hasty = record config { max_backoff = pos 1 }

-- The function fails at attempt 0, and at attempt 1 it returns `last`.
abbrev around : Option ℕ → Surroundings floats ℕ
around last = record {
  done_before = λ i. false;
  try_it = λ i. if ltb i 1 then some 3 else last;
  draw = λ i n. 0;
  done_waiting = λ i. false;
}

program : Unit {0}
unfolding do_retry normalise loop calculate_backoff capped_backoff may_retry wrap_64
program = tt

jitter_panics : do_retry floats ℕ (around none) hasty ≡ (panicked, 1)
unfolding program
jitter_panics = refl

goes_on :
    (last : Option ℕ) (i : ℕ)
    → i < 1
    → Continues floats ℕ (around last) (normalise floats ℕ config) i
unfolding program
goes_on last zero h = record {
  error = 3;
  not_done = refl;
  fails = refl;
  retried = refl;
  wait = pos 100;
  waits = refl;
  wait_ends = refl;
}
goes_on last (suc i) h = ground arith

do_retry-success_example : do_retry floats ℕ (around none) config ≡ (succeeded, 2)
do_retry-success_example =
    do_retry-success floats ℕ (around none) config 1 (omega arith) (goes_on none) refl refl

six_is_final : may_retry floats ℕ (normalise floats ℕ config) 6 ≡ false
unfolding program
six_is_final = refl

abbrev lowest : ℕ → ℕ
lowest n = 0

first_wait : calculate_backoff floats ℕ lowest 0 config ≡ some (pos 100)
unfolding program
first_wait = refl
