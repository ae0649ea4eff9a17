-- ===== src/Store/Query.antt =====
-- What `queryByTime` returns, against a plain search of the list of events.
use mathlib.Core.Path.{ap₂}
use high_performance_event_s.Common.{
  ℕ, zero, suc, ◌+◌, ◌≤◌, ◌≡◌, refl, sym, ◌∙◌, Bool, true, false, ◌&&◌, List, Option, arith,
  if◌then◌else◌, filter, count, count-append, count-filter, count_congr, count_none, count_add,
  Bool-cases, inl, inr,
}
use high_performance_event_s.Common.Int.{
  ℤ, pos, ◌≤ℤ◌, leb_ℤ, eqb_ℤ, ◌-ℤ◌, ◌+ℤ◌, pos_part, +ℤ_parts, -ℤ_parts,
}
use high_performance_event_s.Common.Outcome.{ok}
use high_performance_event_s.Domain.Event.{Event}
use high_performance_event_s.Store.{EventStore, minute_of, bucket_at, keeps, scan, query_by_time}
use high_performance_event_s.Store.Minutes.{minute_of_mono}
use high_performance_event_s.Store.Index.{Indexed, beyond, in_minute}

-- The minute of an event is in a range of minutes.
abbrev minute_between : ℤ → ℤ → Event → Bool
minute_between b last e = leb_ℤ b (minute_of e.timestamp) && leb_ℤ (minute_of e.timestamp) last

one_more :
    (b last m : ℤ)
    → leb_ℤ b last ≡ true
    → (if eqb_ℤ m b then 1 else 0) + (if leb_ℤ (b +ℤ pos 1) m && leb_ℤ m last then 1 else 0)
      ≡ (if leb_ℤ b m && leb_ℤ m last then 1 else 0)
one_more b last m h = ground (arith, +ℤ_parts b (pos 1))

step_count :
    (x y : Bool) (b last m : ℤ)
    → leb_ℤ b last ≡ true
    → (if x && (y && eqb_ℤ m b) then 1 else 0)
        + (if x && (y && (leb_ℤ (b +ℤ pos 1) m && leb_ℤ m last)) then 1 else 0)
      ≡ (if x && (y && (leb_ℤ b m && leb_ℤ m last)) then 1 else 0)
step_count true true b last m h = one_more b last m h
step_count true false b last m h = refl
step_count false y b last m h = refl

rounds_left :
    (b last : ℤ) (n : ℕ)
    → leb_ℤ b last ≡ true
    → pos_part (last -ℤ b +ℤ pos 1) ≤ suc n
    → pos_part (last -ℤ (b +ℤ pos 1) +ℤ pos 1) ≤ n
unfolding ◌+ℤ◌ ◌-ℤ◌
rounds_left b last n h k = ground arith

drop_minutes : (x k q m : Bool) → (k ≡ true → m ≡ true) → (x && ((k && q) && m)) ≡ (x && (k && q))
drop_minutes x k q m h = ground arith

module _ (h : Option ℤ) (s : EventStore) (i : Indexed h s) where
  count-scan :
      (keep q : Event → Bool) (fuel : ℕ) (b last : ℤ)
      → pos_part (last -ℤ b +ℤ pos 1) ≤ fuel
      → count (λ e. beyond h e && q e) (scan fuel b last keep s.time_buckets)
        ≡ count (λ e. beyond h e && ((keep e && q e) && minute_between b last e)) s.events
  unfolding scan
  count-scan keep q zero b last f =
      sym
        (count_none _ s.events (λ e. ground (arith, +ℤ_parts (last -ℤ b) (pos 1), -ℤ_parts last b)))
  count-scan keep q (suc fuel) b last f = elim (Bool-cases (leb_ℤ b last)) [
    | inr over ↦ rw over (sym (count_none _ s.events (λ e. ground (arith, over))))
    | inl more ↦
        let ih = count-scan keep q fuel (b +ℤ pos 1) last (rounds_left b last fuel more f) in
        let here : count (λ e. beyond h e && q e) (filter keep (bucket_at b s.time_buckets))
            ≡ count (λ e. beyond h e && ((keep e && q e) && in_minute b e)) s.events =
          count-filter (λ e. beyond h e && q e) keep (bucket_at b s.time_buckets)
          ∙ count_congr _ (λ e. beyond h e && (keep e && q e)) (bucket_at b s.time_buckets)
              (λ e. ground arith)
          ∙ i.agrees b (λ e. keep e && q e) in
        let split =
          count_add (λ e. beyond h e && ((keep e && q e) && in_minute b e))
            (λ e. beyond h e && ((keep e && q e) && minute_between (b +ℤ pos 1) last e))
            (λ e. beyond h e && ((keep e && q e) && minute_between b last e)) s.events
            (λ e. step_count (beyond h e) (keep e && q e) b last (minute_of e.timestamp) more) in
        rw more (
          count-append (λ e. beyond h e && q e) (filter keep (bucket_at b s.time_buckets))
            (scan fuel (b +ℤ pos 1) last keep s.time_buckets)
          ∙ ap₂ ◌+◌ here ih
          ∙ split)
  ]

  -- The minutes of the range hold every event of the range.
  range_minutes :
      (start end : ℤ) (accept : Event → Bool) (e : Event)
      → keeps start end accept e ≡ true
      → minute_between (minute_of start) (minute_of end) e ≡ true
  unfolding keeps
  range_minutes start end accept e k =
      ground (arith, minute_of_mono start e.timestamp, minute_of_mono e.timestamp end)

  -- For a valid range the query returns, and of the events beyond the horizon its result holds exactly
  -- those of the list that lie in the range, both ends included, and that the filter lets through, and
  -- each as often.
  pub query_by_time-count :
      (start end : ℤ) (accept : Event → Bool)
      → start ≤ℤ end
      → (result : List Event) × (query_by_time start end accept s ≡ ok result)
        × ((q : Event → Bool)
            → count (λ e. beyond h e && q e) result
              ≡ count (λ e. beyond h e && (keeps start end accept e && q e)) s.events)
  unfolding query_by_time
  query_by_time-count start end accept v =
      let keep = keeps start end accept in
      let rounds = pos_part (minute_of end -ℤ minute_of start +ℤ pos 1) in
      (
        scan rounds (minute_of start) (minute_of end) keep s.time_buckets,
        ground arith,
        λ q.
            count-scan keep q rounds (minute_of start) (minute_of end) (omega arith)
            ∙ count_congr _ _ s.events (λ e.
              drop_minutes (beyond h e) (keep e) (q e)
                (minute_between (minute_of start) (minute_of end) e)
                (range_minutes start end accept e)),
      )
