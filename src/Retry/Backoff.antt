-- ===== src/Retry/Backoff.antt =====
-- The bounds of a backoff.
use high_performance_event_s.Common.{
  ◌≡◌, ◌↔◌, ℕ, ◌+◌, ◌/◌, ◌<◌, ◌≤◌, true, some, none, arith, Bool-cases, inl, inr,
}
use high_performance_event_s.Common.Int.{ℤ, pos, ◌≤ℤ◌, ltb_ℤ, pos_part}
use high_performance_event_s.Store.Paging.{wrap_64}
use high_performance_event_s.Retry.{Floats, Config, capped_backoff, calculate_backoff}

module _ (F : Floats) (E : Type 0) where
  pub capped_backoff-bound :
      (attempt : ℕ) (c : Config F E) → capped_backoff F E attempt c ≤ℤ c.max_backoff
  unfolding capped_backoff
  capped_backoff-bound attempt c =
      elim (Bool-cases
        (ltb_ℤ c.max_backoff (F.scale c.initial_backoff c.backoff_multiplier attempt))) [
          | inl a ↦ ground (arith, a)
          | inr a ↦ ground (arith, a)
        ]

  -- Where the maximum is below 2 ^ 62 nanoseconds and the random source stays below its bound, a
  -- backoff is at least the capped one, and exceeds it by at most half of it.
  pub calculate_backoff-bounds :
      (draw : ℕ → ℕ) (attempt : ℕ) (c : Config F E) (wait : ℤ)
      → ((n : ℕ) → 0 < n → draw n < n)
      → pos_part c.max_backoff < 4611686018427387904
      → calculate_backoff F E draw attempt c ≡ some wait
      → (capped_backoff F E attempt c ≤ℤ wait)
        × (pos_part wait
            ≤ pos_part (capped_backoff F E attempt c) + pos_part (capped_backoff F E attempt c) / 2)
  unfolding calculate_backoff wrap_64
  calculate_backoff-bounds draw attempt c wait contract small h = elim (Bool-cases c.jitter) [
    | inr off ↦ ground (arith, off, h)
    | inl on ↦ ground (
      arith,
      on,
      h,
      capped_backoff-bound attempt c,
      small,
      contract (pos_part (capped_backoff F E attempt c) / 2),
    )
  ]

  -- A backoff panics exactly where there is to be a jitter and the capped backoff is below two
  -- nanoseconds.
  pub calculate_backoff-panics :
      (draw : ℕ → ℕ) (attempt : ℕ) (c : Config F E)
      → (calculate_backoff F E draw attempt c ≡ none)
        ↔ ((c.jitter ≡ true) × (ltb_ℤ (capped_backoff F E attempt c) (pos 2) ≡ true))
  unfolding calculate_backoff
  calculate_backoff-panics draw attempt c = elim (Bool-cases c.jitter) [
    | inr off ↦ ground (arith, off)
    | inl on ↦ ground (arith, on)
  ]
