-- ===== src/Limiter.antt =====
-- The rate limiter (internal/infrastructure/ratelimiter/rate_limiter.go). Package rate is a parameter:
-- a bucket of tokens, which a call changes in place. `Wait` blocks without a lock, so it is two steps here,
-- between which any others stand; `Allow` and a clean-up are one step each.
pub mod Cleanup
mod Tests
use high_performance_event_s.Common.{
  ℕ, Bool, true, false, String, List, [], ◌∷◌, Option, none, some, length, is_blank, if◌then◌else◌,
}
use high_performance_event_s.Common.Int.{ℤ, ltb_ℤ, ◌-ℤ◌}
use high_performance_event_s.Common.Dict.{Dict, lookup, insert, delete}

-- `rate.NewLimiter`, `Allow` at an instant, and what `Wait` does to the bucket before it blocks.
pub record Rate : Type 1 where
  pub Bucket : Type 0
  pub new_limiter : ℤ → ℤ → Bucket
  pub allow : ℤ → Bucket → Bool × Bucket
  pub reserve : ℤ → Bucket → Bucket

-- What `Allow` returns: its answer, or the error for an empty key.
pub data Answer : Type 0 where
  answered : Bool → Answer
  empty_key : Answer

-- What `Wait` does first: the error for an empty key, or it blocks.
pub data WaitStart : Type 0 where
  waiting no_key : WaitStart

module _ (L : Rate) where
  -- `TokenBucketLimiter`, without the timer of the clean-up
  pub record TokenBucketLimiter : Type 0 where
    pub limiters : Dict L.Bucket
    pub last_access : Dict ℤ
    pub requests_per_second : ℤ
    pub burst : ℤ
    pub stale_threshold : ℤ
    pub is_running : Bool

  -- `NewTokenBucketLimiter`, with the clean-up started
  unfoldable pub new_token_bucket_limiter : ℤ → ℤ → ℤ → TokenBucketLimiter
  new_token_bucket_limiter requests_per_second burst stale_threshold = record {
    limiters = [];
    last_access = [];
    requests_per_second = requests_per_second;
    burst = burst;
    stale_threshold = stale_threshold;
    is_running = true;
  }

  -- `getOrCreateLimiter`: the bucket that is stored, or a new one
  unfoldable pub get_or_create_limiter : String → TokenBucketLimiter → L.Bucket
  get_or_create_limiter key t = elim (lookup key t.limiters) [
    | some bucket ↦ bucket
    | none ↦ L.new_limiter t.requests_per_second t.burst
  ]

  -- The bucket after a call of it
  abbrev pub put_limiter : String → L.Bucket → TokenBucketLimiter → TokenBucketLimiter
  put_limiter key bucket t = record t { limiters = insert key bucket t.limiters }

  -- `updateLastAccess`
  unfoldable pub update_last_access : ℤ → String → TokenBucketLimiter → TokenBucketLimiter
  update_last_access now key t = record t { last_access = insert key now t.last_access }

  -- `Allow`; `asked` is the clock at the bucket, `noted` that of the last access.
  unfoldable pub allow : ℤ → ℤ → String → TokenBucketLimiter → Answer × TokenBucketLimiter
  unfolding get_or_create_limiter update_last_access
  allow asked noted key t =
      if is_blank key
      then (empty_key, t)
      else (let (allowed, bucket) = L.allow asked (get_or_create_limiter key t) in
          let used = put_limiter key bucket t in
          (answered allowed, if allowed then update_last_access noted key used else used))

  -- `Wait` up to the point where it blocks
  unfoldable pub start_wait : ℤ → String → TokenBucketLimiter → WaitStart × TokenBucketLimiter
  unfolding get_or_create_limiter
  start_wait asked key t =
      if is_blank key
      then (no_key, t)
      else (waiting, put_limiter key (L.reserve asked (get_or_create_limiter key t)) t)

  -- The rest of `Wait`, with what package rate answers. A wait that fails gives tokens back to its bucket:
  -- `bucket` is what this becomes, where the map still holds it.
  unfoldable pub end_wait :
      ℤ
      → String
      → Option String
      → Option L.Bucket
      → TokenBucketLimiter
      → Option String × TokenBucketLimiter
  unfolding update_last_access
  end_wait noted key none bucket t = (none, update_last_access noted key t)
  end_wait noted key (some e) none t = (some e, t)
  end_wait noted key (some e) (some bucket) t = elim (lookup key t.limiters) [
    | none ↦ (some e, t)
    | some old ↦ (some e, put_limiter key bucket t)
  ]

  -- The first loop of `cleanupStaleLimiters`: the keys whose last access is too old.
  unfoldable pub stale_keys : ℤ → ℤ → Dict ℤ → List String
  stale_keys threshold now [] = []
  stale_keys threshold now ((key, accessed) ∷ rest) =
      let others = stale_keys threshold now rest in
      if ltb_ℤ threshold (now -ℤ accessed) then key ∷ others else others

  -- The second loop: the keys are deleted from both maps.
  unfoldable pub delete_keys : List String → TokenBucketLimiter → TokenBucketLimiter
  delete_keys [] t = t
  delete_keys (key ∷ keys) t =
      delete_keys keys
        (record t { limiters = delete key t.limiters; last_access = delete key t.last_access })

  -- `cleanupStaleLimiters`
  unfoldable pub cleanup_stale_limiters : ℤ → TokenBucketLimiter → TokenBucketLimiter
  unfolding stale_keys delete_keys
  cleanup_stale_limiters now t = delete_keys (stale_keys t.stale_threshold now t.last_access) t

  -- `Stop`
  unfoldable pub stop : TokenBucketLimiter → TokenBucketLimiter
  stop t = record t { is_running = false }

  -- The number of limiters that `GetStats` reports
  unfoldable pub active_limiters : TokenBucketLimiter → ℕ
  active_limiters t = length t.limiters
