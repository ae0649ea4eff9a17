-- ===== src/Retry/Attempts.antt =====
-- How often `Do` calls the function, and what it returns.
use high_performance_event_s.Common.{
  ◌≡◌, ℕ, zero, suc, ◌+◌, ◌-◌, ap, ◌≤◌, ◌<◌, true, false, some, none, arith,
}
use high_performance_event_s.Common.Int.{ℤ, pos, ◌≤ℤ◌, pos_part}
use high_performance_event_s.Retry.{
  Floats, succeeded, failed, Config, Surroundings, normalise, calculate_backoff, may_retry, loop,
  do_retry,
}

after_step : (a n : ℕ) → suc a + n ≡ a + suc n
after_step a n = omega arith

module _ (F : Floats) (E : Type 0) (s : Surroundings F E) where
  loop-calls : (c : Config F E) (left a : ℕ) → (loop F E s c left a).1 ≤ suc left
  unfolding loop
  loop-calls c zero a = ground arith
  loop-calls c (suc left) a = ground (arith, loop-calls c left (suc a))

  -- The function is called at most once more than the number of retries, which is zero where it is
  -- negative.
  pub do_retry-calls : (c : Config F E) → (do_retry F E s c).1 ≤ suc (pos_part c.max_retries)
  unfolding do_retry normalise
  do_retry-calls c =
      ground (arith, loop-calls (normalise F E c) (pos_part (normalise F E c).max_retries) 0)

  -- After a failed attempt the loop goes on: the context is not done, the error may be retried, and
  -- the wait ends.
  pub record Continues (c : Config F E) (a : ℕ) : Type 0 where
    pub error : E
    pub not_done : s.done_before a ≡ false
    pub fails : s.try_it a ≡ some error
    pub retried : may_retry F E c error ≡ true
    pub wait : ℤ
    pub waits : calculate_backoff F E (s.draw a) a c ≡ some wait
    pub wait_ends : s.done_waiting a ≡ false

  loop-step :
      (c : Config F E) (left a : ℕ)
      → Continues c a
      → ((loop F E s c (suc left) a).0 ≡ (loop F E s c left (suc a)).0)
        × ((loop F E s c (suc left) a).1 ≡ suc (loop F E s c left (suc a)).1)
  unfolding loop
  loop-step c left a k = ground (arith, k.not_done, k.fails, k.retried, k.waits, k.wait_ends)

  loop-run :
      (c : Config F E) (n left a : ℕ)
      → ((i : ℕ) → a ≤ i → i < a + n → Continues c i)
      → ((loop F E s c (n + left) a).0 ≡ (loop F E s c left (a + n)).0)
        × ((loop F E s c (n + left) a).1 ≡ n + (loop F E s c left (a + n)).1)
  loop-run c zero left a k = ground arith
  loop-run c (suc n) left a k = ground (
    arith,
    loop-step c (n + left) a (k a (omega arith) (omega arith)),
    loop-run c n left (suc a) (λ i lo hi. k i (omega arith) (omega arith)),
    ap (λ x. loop F E s c left x) (after_step a n),
  )

  normalise-max_retries :
      (c : Config F E) (n : ℕ)
      → pos n ≤ℤ c.max_retries
      → pos_part (normalise F E c).max_retries ≡ n + (pos_part c.max_retries - n)
  unfolding normalise
  normalise-max_retries c n h = ground (arith, h)

  -- Where the first `n` attempts fail and each is followed by the next, a run is that of the loop from
  -- attempt `n` on, after `n` calls.
  do_retry-run :
      (c : Config F E) (n : ℕ)
      → pos n ≤ℤ c.max_retries
      → ((i : ℕ) → i < n → Continues (normalise F E c) i)
      → let rest = loop F E s (normalise F E c) (pos_part c.max_retries - n) n in
        ((do_retry F E s c).0 ≡ rest.0) × ((do_retry F E s c).1 ≡ n + rest.1)
  unfolding do_retry
  do_retry-run c n h k = ground (
    arith,
    ap (λ x. loop F E s (normalise F E c) x 0) (normalise-max_retries c n h),
    loop-run (normalise F E c) n (pos_part c.max_retries - n) 0 (λ i lo hi. k i (omega arith)),
  )

  loop-success :
      (c : Config F E) (left a : ℕ)
      → s.done_before a ≡ false
      → s.try_it a ≡ none
      → loop F E s c left a ≡ (succeeded, 1)
  unfolding loop
  loop-success c zero a d f = ground (arith, d, f)
  loop-success c (suc left) a d f = ground (arith, d, f)

  -- Where the first `n` attempts, at most as many as the retries, fail and each is followed by the
  -- next, and attempt `n` succeeds, `Do` returns nil after `n + 1` calls.
  pub do_retry-success :
      (c : Config F E) (n : ℕ)
      → pos n ≤ℤ c.max_retries
      → ((i : ℕ) → i < n → Continues (normalise F E c) i)
      → s.done_before n ≡ false
      → s.try_it n ≡ none
      → do_retry F E s c ≡ (succeeded, suc n)
  do_retry-success c n h k d f = ground (
    arith,
    do_retry-run c n h k,
    loop-success (normalise F E c) (pos_part c.max_retries - n) n d f,
  )

  none_left : (c : Config F E) (n : ℕ) → c.max_retries ≡ pos n → pos_part c.max_retries - n ≡ 0
  none_left c n h = ground (arith, h)

  loop-last :
      (c : Config F E) (a : ℕ) (e : E)
      → s.done_before a ≡ false
      → s.try_it a ≡ some e
      → loop F E s c 0 a ≡ (failed e, 1)
  unfolding loop
  loop-last c a e d f = ground (arith, d, f)

  -- Where every attempt fails and each but the last is followed by the next, `Do` returns the error of
  -- the last attempt, after one call more than the number of retries.
  pub do_retry-exhausted :
      (c : Config F E) (n : ℕ) (e : E)
      → c.max_retries ≡ pos n
      → ((i : ℕ) → i < n → Continues (normalise F E c) i)
      → s.done_before n ≡ false
      → s.try_it n ≡ some e
      → do_retry F E s c ≡ (failed e, suc n)
  do_retry-exhausted c n e h k d f = ground (
    arith,
    h,
    do_retry-run c n (ground (arith, h)) k,
    ap (λ x. loop F E s (normalise F E c) x n) (none_left c n h),
    loop-last (normalise F E c) n e d f,
  )

  loop-final :
      (c : Config F E) (left a : ℕ) (e : E)
      → s.done_before a ≡ false
      → s.try_it a ≡ some e
      → may_retry F E c e ≡ false
      → loop F E s c left a ≡ (failed e, 1)
  unfolding loop
  loop-final c zero a e d f m = ground (arith, d, f, m)
  loop-final c (suc left) a e d f m = ground (arith, d, f, m)

  -- An error that may not be retried is returned at once: after the first `n` attempts fail and each
  -- is followed by the next, such an error of attempt `n` is what `Do` returns, after `n + 1` calls.
  pub do_retry-final :
      (c : Config F E) (n : ℕ) (e : E)
      → pos n ≤ℤ c.max_retries
      → ((i : ℕ) → i < n → Continues (normalise F E c) i)
      → s.done_before n ≡ false
      → s.try_it n ≡ some e
      → may_retry F E (normalise F E c) e ≡ false
      → do_retry F E s c ≡ (failed e, suc n)
  do_retry-final c n e h k d f m = ground (
    arith,
    do_retry-run c n h k,
    loop-final (normalise F E c) (pos_part c.max_retries - n) n e d f m,
  )
