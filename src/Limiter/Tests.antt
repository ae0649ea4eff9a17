-- ===== src/Limiter/Tests.antt =====
-- A limiter whose buckets hold a number of tokens and are never refilled.
use high_performance_event_s.Common.{
  ℕ, zero, suc, ◌≡◌, refl, Bool, true, false, List, [], ◌∷◌, none, if◌then◌else◌,
}
use high_performance_event_s.Common.Int.{pos, pos_part, ◌-ℤ◌}
use high_performance_event_s.Common.Dict.{lookup, insert, delete}
use high_performance_event_s.Limiter.{
  Rate, TokenBucketLimiter, new_token_bucket_limiter, get_or_create_limiter, update_last_access,
  allow, start_wait, end_wait, answered, cleanup_stale_limiters, stale_keys, delete_keys,
}
use high_performance_event_s.Limiter.Cleanup.{
  is_stale, Step, allowing, starting_wait, ending_wait, ticking, run, run-cleanup,
}

pred : ℕ → ℕ
pred zero = zero
pred (suc n) = n

take_token : ℕ → Bool × ℕ
take_token zero = (false, zero)
take_token (suc n) = (true, n)

abbrev tokens : Rate
tokens = record {
  Bucket = ℕ;
  new_limiter = λ rps burst. pos_part burst;
  allow = λ now n. take_token n;
  reserve = λ now n. pred n;
}

abbrev fresh : TokenBucketLimiter tokens
fresh = record {
  limiters = [];
  last_access = [];
  requests_per_second = pos 1;
  burst = pos 1;
  stale_threshold = pos 10;
  is_running = true;
}

-- One client has used its token, another was never allowed.
abbrev busy : TokenBucketLimiter tokens
busy = record fresh { limiters = ("a", 0) ∷ ("b", 0) ∷ []; last_access = ("a", pos 5) ∷ [] }

program : Unit {0}
unfolding new_token_bucket_limiter get_or_create_limiter update_last_access allow start_wait
    end_wait take_token pred cleanup_stale_limiters stale_keys delete_keys lookup insert delete ◌-ℤ◌
program = tt

made : new_token_bucket_limiter tokens (pos 1) (pos 1) (pos 10) ≡ fresh
unfolding program
made = refl

first_allowed : (allow tokens (pos 5) (pos 5) "a" fresh).0 ≡ answered true
unfolding program
first_allowed = refl

second_refused :
    (allow tokens (pos 6) (pos 6) "a" (allow tokens (pos 5) (pos 5) "a" fresh).1).0 ≡ answered false
unfolding program
second_refused = refl

-- The limiter of the client that was never allowed stays.
refused_stays : (cleanup_stale_limiters tokens (pos 100) busy).limiters ≡ ("b", 0) ∷ []
unfolding program
refused_stays = refl

-- A clean-up between the two steps of a wait leaves a last access without a limiter.
overtaken :
    let t =
      run tokens
        (allowing (pos 0) (pos 0) "a"
          ∷ starting_wait (pos 100) "a"
          ∷ ticking (pos 100)
          ∷ ending_wait (pos 101) "a" none none
          ∷ [])
        fresh in
    (t.limiters ≡ []) × (t.last_access ≡ ("a", pos 101) ∷ [])
unfolding program
overtaken = (refl, refl)

abbrev some_steps : List (Step tokens)
some_steps =
    allowing (pos 0) (pos 0) "a"
    ∷ starting_wait (pos 1) "b"
    ∷ ending_wait (pos 2) "b" none none
    ∷ []

run-cleanup_example :
    let t = run tokens some_steps (new_token_bucket_limiter tokens (pos 1) (pos 1) (pos 10)) in
    let t' = cleanup_stale_limiters tokens (pos 11) t in
    let stale = is_stale (pos 10) (pos 11) (lookup "a" t.last_access) in
    (lookup "a" t'.limiters ≡ (if stale then none else lookup "a" t.limiters))
    × (lookup "a" t'.last_access ≡ (if stale then none else lookup "a" t.last_access))
run-cleanup_example = run-cleanup tokens (pos 1) (pos 1) (pos 10) (pos 11) some_steps "a"
