-- ===== src/Store/Retention.antt =====
-- Where the list and the index part, and what `queryByTime`, `Count` and `GetByID` say of each.

use high_performance_event_s.Common.{
  ℕ, zero, suc, ◌+◌, ◌≡◌, refl, sym, ◌∙◌, Bool, true, ◌&&◌, ◌||◌, List, [], ◌∷◌, none, arith,
  filter, count, length, All, All-append, count_add, Bool-cases, inl, inr, ◌⊎◌,
}
use high_performance_event_s.Common.Int.{ℤ, pos, ◌≤ℤ◌, ltb_ℤ, leb_ℤ, eqb_ℤ, ◌-ℤ◌, ◌+ℤ◌, pos_part}
use high_performance_event_s.Common.Outcome.{ok, err}
use high_performance_event_s.Domain.Event.{Event}
use high_performance_event_s.Store.{
  Buckets, EventStore, minute_of, bucket_at, is_after, is_before, keeps, scan, query_by_time,
  bad_range, cleanup, count_between,
}
use high_performance_event_s.Store.Minutes.{bucket_at-drop_below}
use high_performance_event_s.Store.Index.{Indexed}
use high_performance_event_s.Store.Query.{query_by_time-count}

filter-All : (p : Event → Bool) (xs : List Event) → All (λ e. p e ≡ true) (filter p xs)
filter-All p [] = tt
filter-All p (x ∷ xs) = elim (Bool-cases (p x)) [
  | inl y ↦ rw y (y, filter-All p xs)
  | inr n ↦ rw n (filter-All p xs)
]

-- An event after a range starts, before it ends, and let through by the filter.
abbrev pub InRange : ℤ → ℤ → (Event → Bool) → Event → Type 0
InRange start end accept e = (start ≤ℤ e.timestamp) × (e.timestamp ≤ℤ end) × (accept e ≡ true)

All-weaken :
    (start end : ℤ) (accept : Event → Bool) (xs : List Event)
    → All (λ e. keeps start end accept e ≡ true) xs
    → All (InRange start end accept) xs
unfolding keeps
All-weaken start end accept [] h = tt
All-weaken start end accept (x ∷ xs) h = (
  (ground (arith, h.0), ground (arith, h.0), ground (arith, h.0)),
  All-weaken start end accept xs h.1,
)

scan-All :
    (keep : Event → Bool) (fuel : ℕ) (b last : ℤ) (m : Buckets)
    → All (λ e. keep e ≡ true) (scan fuel b last keep m)
unfolding scan
scan-All keep zero b last m = tt
scan-All keep (suc fuel) b last m = elim (Bool-cases (leb_ℤ b last)) [
  | inl more ↦ rw more (
      All-append (λ e. keep e ≡ true) (filter keep (bucket_at b m))
        (scan fuel (b +ℤ pos 1) last keep m) (filter-All keep (bucket_at b m))
        (scan-All keep fuel (b +ℤ pos 1) last m))
  | inr over ↦ rw over tt
]

-- Whatever a query returns, also of events that the list has already dropped, lies in the range and is
-- let through by the filter; and a query fails exactly where the range is reversed.
pub query_by_time_sound :
    (start end : ℤ) (accept : Event → Bool) (s : EventStore)
    → ((result : List Event) × (query_by_time start end accept s ≡ ok result)
        × (start ≤ℤ end)
        × All (InRange start end accept) result)
      ⊎ ((query_by_time start end accept s ≡ err bad_range) × (ltb_ℤ end start ≡ true))
unfolding query_by_time
query_by_time_sound start end accept s = elim (Bool-cases (ltb_ℤ end start)) [
  | inl bad ↦ inr (ground (arith, bad), bad)
  | inr good ↦
      let rounds = pos_part (minute_of end -ℤ minute_of start +ℤ pos 1) in
      inl (
        scan rounds (minute_of start) (minute_of end) (keeps start end accept) s.time_buckets,
        ground (arith, good),
        ground (arith, good),
        All-weaken start end accept _ (
            scan-All (keeps start end accept) rounds (minute_of start) (minute_of end)
              s.time_buckets),
      )
]

-- A cleanup leaves in the list only events after the cutoff, but it leaves the whole minute of the
-- cutoff in the index, its expired events included.
pub cleanup-keeps_minute :
    (now : ℤ) (s : EventStore)
    → let cutoff = now -ℤ s.max_retention in
      All (λ e. is_after e.timestamp cutoff ≡ true) (cleanup now s).events
      × (bucket_at (minute_of cutoff) (cleanup now s).time_buckets
          ≡ bucket_at (minute_of cutoff) s.time_buckets)
unfolding cleanup
cleanup-keeps_minute now s =
    let cutoff = now -ℤ s.max_retention in
    (
      filter-All (λ e. is_after e.timestamp cutoff) s.events,
      ground (arith, bucket_at-drop_below (minute_of cutoff) (minute_of cutoff) s.time_buckets),
    )

-- The event is at one of the two instants.
abbrev pub at_end : ℤ → ℤ → Event → Bool
at_end start end e = eqb_ℤ e.timestamp start || eqb_ℤ e.timestamp end

length-count : (xs : List Event) → length xs ≡ count (λ e. true && true) xs
length-count [] = refl
length-count (x ∷ xs) = omega (arith, length-count xs)

-- Before any cleanup, `Count` leaves out the events at the two ends of the range, which a query with
-- no filter returns.
pub count_between-query :
    (start end : ℤ) (s : EventStore)
    → Indexed none s
    → start ≤ℤ end
    → (result : List Event) × (query_by_time start end (λ _. true) s ≡ ok result)
      × (length result ≡ count_between start end s + count (at_end start end) s.events)
unfolding count_between keeps
count_between-query start end s i v =
    let (result, found, agrees) = query_by_time-count none s i start end (λ _. true) v in
    (
      result,
      found,
      length-count result
          ∙ agrees (λ _. true)
          ∙ sym (
              count_add (λ e. is_after e.timestamp start && is_before e.timestamp end)
                (at_end start end) (λ e. true && (keeps start end (λ _. true) e && true)) s.events
                (λ e. ground (arith, v))),
    )
