-- ===== src/Limiter/Cleanup.antt =====
-- What the clean-up removes, and which keys it knows of.
use mathlib.Core.Path.{subst}
use high_performance_event_s.Common.{
  Option, ◌≡◌, refl, ◌∙◌, inl, inr, Bool, false, any, String, List, [], ◌∷◌, none, some, arith,
  if◌then◌else◌, is_blank, str_eq, eq_iff, Bool-cases, Option-cases,
}
use high_performance_event_s.Common.Int.{ℤ, ltb_ℤ, ◌-ℤ◌}
use high_performance_event_s.Common.Dict.{
  Dict, lookup, delete, IsMap, insert-IsMap, delete-IsMap, lookup-delete,
}
use high_performance_event_s.Limiter.{
  Rate, TokenBucketLimiter, new_token_bucket_limiter, allow, start_wait, end_wait,
  get_or_create_limiter, update_last_access, stale_keys, delete_keys, cleanup_stale_limiters,
}

has_key : String → List String → Bool
has_key key keys = any (λ k. str_eq k key) keys

-- The last access is known, and longer ago than the threshold.
abbrev pub is_stale : ℤ → ℤ → Option ℤ → Bool
is_stale threshold now none = false
is_stale threshold now (some accessed) = ltb_ℤ threshold (now -ℤ accessed)

module _ (L : Rate) where
  has_key-stale_keys :
      (threshold now : ℤ) (accesses : Dict ℤ) (key : String)
      → IsMap accesses
      → has_key key (stale_keys L threshold now accesses)
        ≡ is_stale threshold now (lookup key accesses)
  unfolding has_key stale_keys lookup
  has_key-stale_keys threshold now [] key m = refl
  has_key-stale_keys threshold now ((k, accessed) ∷ rest) key m =
      ground (arith, eq_iff k key, m.0, has_key-stale_keys threshold now rest key m.1)

  lookup-delete_keys :
      (keys : List String) (t : TokenBucketLimiter L) (key : String)
      → (lookup key (delete_keys L keys t).limiters
          ≡ (if has_key key keys then none else lookup key t.limiters))
        × (lookup key (delete_keys L keys t).last_access
            ≡ (if has_key key keys then none else lookup key t.last_access))
  unfolding delete_keys has_key
  lookup-delete_keys [] t key = (refl, refl)
  lookup-delete_keys (k ∷ keys) t key =
      let rest =
        lookup-delete_keys keys
          (record t { limiters = delete k t.limiters; last_access = delete k t.last_access }) key in
      ground (arith, rest, lookup-delete k key t.limiters, lookup-delete k key t.last_access)

  -- Where the last accesses are a map, a clean-up removes a key from both maps exactly where its last
  -- access is known and older than the threshold.
  cleanup_stale_limiters-lookup :
      (now : ℤ) (t : TokenBucketLimiter L) (key : String)
      → IsMap t.last_access
      → let t' = cleanup_stale_limiters L now t in
        (lookup key t'.limiters ≡ (
          if is_stale t.stale_threshold now (lookup key t.last_access)
          then none
          else lookup key t.limiters))
        × (lookup key t'.last_access ≡ (
            if is_stale t.stale_threshold now (lookup key t.last_access)
            then none
            else lookup key t.last_access))
  unfolding cleanup_stale_limiters
  cleanup_stale_limiters-lookup now t key m =
      let stale = stale_keys L t.stale_threshold now t.last_access in
      let known = has_key-stale_keys t.stale_threshold now t.last_access key m in
      (
        ground (arith, lookup-delete_keys stale t key, known),
        ground (arith, lookup-delete_keys stale t key, known),
      )

  delete_keys-IsMap :
      (keys : List String) (t : TokenBucketLimiter L)
      → IsMap t.last_access
      → IsMap (delete_keys L keys t).last_access
  unfolding delete_keys
  delete_keys-IsMap [] t m = m
  delete_keys-IsMap (k ∷ keys) t m =
      delete_keys-IsMap keys
        (record t { limiters = delete k t.limiters; last_access = delete k t.last_access })
        (delete-IsMap k t.last_access m)

  delete_keys-threshold :
      (keys : List String) (t : TokenBucketLimiter L)
      → (delete_keys L keys t).stale_threshold ≡ t.stale_threshold
  unfolding delete_keys
  delete_keys-threshold [] t = refl
  delete_keys-threshold (k ∷ keys) t =
      delete_keys-threshold keys
        (record t { limiters = delete k t.limiters; last_access = delete k t.last_access })

  -- A step of the limiter: a call of `Allow`, the start and the end of one of `Wait`, for whatever key,
  -- and a tick of the timer.
  pub data Step : Type 0 where
    allowing : ℤ → ℤ → String → Step
    starting_wait : ℤ → String → Step
    ending_wait : ℤ → String → Option String → Option L.Bucket → Step
    ticking : ℤ → Step

  abbrev pub take_step : Step → TokenBucketLimiter L → TokenBucketLimiter L
  take_step (allowing asked noted key) t = (allow L asked noted key t).1
  take_step (starting_wait asked key) t = (start_wait L asked key t).1
  take_step (ending_wait noted key answer bucket) t = (end_wait L noted key answer bucket t).1
  take_step (ticking now) t = cleanup_stale_limiters L now t

  abbrev pub run : List Step → TokenBucketLimiter L → TokenBucketLimiter L
  run [] t = t
  run (s ∷ steps) t = run steps (take_step s t)

  -- The last accesses are a map, and the threshold is this one.
  abbrev IsKept : ℤ → TokenBucketLimiter L → Type 0
  IsKept threshold t = IsMap t.last_access × (t.stale_threshold ≡ threshold)

  allow-IsKept :
      (threshold asked noted : ℤ) (key : String) (t : TokenBucketLimiter L)
      → IsKept threshold t
      → IsKept threshold (allow L asked noted key t).1
  unfolding allow update_last_access
  allow-IsKept threshold asked noted key t h = elim (Bool-cases (is_blank key)) [
    | inl a ↦ rw a h
    | inr a ↦ elim (Bool-cases (L.allow asked (get_or_create_limiter L key t)).0) [
      | inl b ↦ rw a (rw b (insert-IsMap key noted t.last_access h.0, h.1))
      | inr b ↦ rw a (rw b h)
    ]
  ]

  end_wait-IsKept :
      (threshold noted : ℤ) (key : String) (answer : Option String) (bucket : Option L.Bucket)
      (t : TokenBucketLimiter L)
      → IsKept threshold t
      → IsKept threshold (end_wait L noted key answer bucket t).1
  unfolding end_wait update_last_access
  end_wait-IsKept threshold noted key none bucket t h =
      (insert-IsMap key noted t.last_access h.0, h.1)
  end_wait-IsKept threshold noted key (some e) none t h = h
  end_wait-IsKept threshold noted key (some e) (some bucket) t h =
      elim (Option-cases (lookup key t.limiters)) [
        | inl a ↦ rw (a, end_wait) h
        | inr (x, a) ↦ rw (a, end_wait) h
      ]

  take_step-IsKept :
      (threshold : ℤ) (s : Step) (t : TokenBucketLimiter L)
      → IsKept threshold t
      → IsKept threshold (take_step s t)
  unfolding start_wait cleanup_stale_limiters
  take_step-IsKept threshold (allowing asked noted key) t h =
      allow-IsKept threshold asked noted key t h
  take_step-IsKept threshold (starting_wait asked key) t h = elim (Bool-cases (is_blank key)) [
    | inl a ↦ rw (a, take_step, start_wait) h
    | inr a ↦ rw (a, take_step, start_wait) h
  ]
  take_step-IsKept threshold (ending_wait noted key answer bucket) t h =
      end_wait-IsKept threshold noted key answer bucket t h
  take_step-IsKept threshold (ticking now) t h =
      let stale = stale_keys L t.stale_threshold now t.last_access in
      (delete_keys-IsMap stale t h.0, delete_keys-threshold stale t ∙ h.1)

  run-IsKept :
      (threshold : ℤ) (steps : List Step) (t : TokenBucketLimiter L)
      → IsKept threshold t
      → IsKept threshold (run steps t)
  run-IsKept threshold [] t h = h
  run-IsKept threshold (s ∷ steps) t h =
      run-IsKept threshold steps (take_step s t) (take_step-IsKept threshold s t h)

  -- After any steps of a new limiter, ends of waits that clean-ups have overtaken among them, a clean-up
  -- removes a key from both maps exactly where its last access is known and older than the threshold that
  -- the limiter was made with, and leaves the entries of every other key. So the limiter of a key that
  -- was never allowed stays.
  pub run-cleanup :
      (rps burst threshold now : ℤ) (steps : List Step) (key : String)
      → let t = run steps (new_token_bucket_limiter L rps burst threshold) in
        let t' = cleanup_stale_limiters L now t in
        let stale = is_stale threshold now (lookup key t.last_access) in
        (lookup key t'.limiters ≡ (if stale then none else lookup key t.limiters))
        × (lookup key t'.last_access ≡ (if stale then none else lookup key t.last_access))
  unfolding new_token_bucket_limiter
  run-cleanup rps burst threshold now steps key =
      let t = run steps (new_token_bucket_limiter L rps burst threshold) in
      let (m, same) =
        run-IsKept threshold steps (new_token_bucket_limiter L rps burst threshold) (tt, refl) in
      subst
        (λ limit.
          let t' = cleanup_stale_limiters L now t in
          let stale = is_stale limit now (lookup key t.last_access) in
          (lookup key t'.limiters ≡ (if stale then none else lookup key t.limiters))
          × (lookup key t'.last_access ≡ (if stale then none else lookup key t.last_access)))
        same (cleanup_stale_limiters-lookup now t key m)
