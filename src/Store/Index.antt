-- ===== src/Store/Index.antt =====
-- The index agrees with the list of events. `cleanup` drops old events from the list one by one, but
-- from the index by whole minutes, so the two agree on the events after some instant, the horizon:
-- the latest cutoff so far, and none before the first cleanup.
use high_performance_event_s.Common.{
  ◌≡◌, refl, sym, ◌∙◌, Bool, true, false, ◌&&◌, [], ◌∷◌, ◌++◌, Option, none, some, arith,
  if◌then◌else◌, filter, count, All, All-append, count-append, count-filter, count_congr,
  count_none, Bool-cases, inl, inr,
}
use high_performance_event_s.Common.Int.{ℤ, ltb_ℤ, eqb_ℤ, eq_of_parts, ◌-ℤ◌}
use high_performance_event_s.Domain.Event.{Event}
use high_performance_event_s.Store.{
  EventStore, new_store, minute_of, bucket_at, append_at, drop_below, cleanup, append_event,
  store_event, clear, is_after, cleanup_interval,
}
use high_performance_event_s.Store.Minutes.{
  minute_of_mono, bucket_at-append_at, bucket_at-drop_below,
}

-- The event is after the horizon.
abbrev pub beyond : Option ℤ → Event → Bool
beyond none e = true
beyond (some c) e = is_after e.timestamp c

-- The event belongs to the minute.
abbrev pub in_minute : ℤ → Event → Bool
in_minute b e = eqb_ℤ (minute_of e.timestamp) b

-- Of the events beyond the horizon, each minute of the index holds those of the list in that minute,
-- and each as often; and whatever a minute holds belongs to it.
pub record Indexed (h : Option ℤ) (s : EventStore) : Type 0 where
  pub agrees :
      (b : ℤ) (q : Event → Bool)
      → count (λ e. beyond h e && q e) (bucket_at b s.time_buckets)
        ≡ count (λ e. beyond h e && (q e && in_minute b e)) s.events
  pub placed : (b : ℤ) → All (λ e. minute_of e.timestamp ≡ b) (bucket_at b s.time_buckets)

-- The horizon after a cleanup.
abbrev pub advance : Option ℤ → ℤ → Option ℤ
advance none c = some c
advance (some d) c = if ltb_ℤ d c then some c else some d

pub new_store-Indexed : (max_retention now : ℤ) → Indexed none (new_store max_retention now)
unfolding new_store bucket_at
new_store-Indexed max_retention now = record { agrees = λ b q. refl; placed = λ b. tt }

pub clear-Indexed : (h : Option ℤ) (s : EventStore) → Indexed h (clear s)
unfolding clear bucket_at
clear-Indexed h s = record { agrees = λ b q. refl; placed = λ b. tt }

append_event-Indexed :
    (h : Option ℤ) (e : Event) (s : EventStore) → Indexed h s → Indexed h (append_event e s)
unfolding append_event
append_event-Indexed h e s i = record {
  agrees = λ b q. added_agrees b q;
  placed = λ b. added_placed b;
}
  where
    added_agrees :
        (b : ℤ) (q : Event → Bool)
        → count
            (λ e. beyond h e && q e)
            (bucket_at b (append_at (minute_of e.timestamp) e s.time_buckets))
          ≡ count (λ e. beyond h e && (q e && in_minute b e)) (s.events ++ e ∷ [])
    added_agrees b q = ground (
      arith,
      bucket_at-append_at b (minute_of e.timestamp) e s.time_buckets,
      count-append (λ e. beyond h e && q e) (bucket_at b s.time_buckets) (e ∷ []),
      count-append (λ e. beyond h e && (q e && in_minute b e)) s.events (e ∷ []),
      i.agrees b q,
    )

    added_placed :
        (b : ℤ)
        → All
            (λ e. minute_of e.timestamp ≡ b)
            (bucket_at b (append_at (minute_of e.timestamp) e s.time_buckets))
    added_placed b = elim (Bool-cases (eqb_ℤ (minute_of e.timestamp) b)) [
      | inl same ↦
          rw (bucket_at-append_at, same)
            (All-append (λ e. minute_of e.timestamp ≡ b) (bucket_at b s.time_buckets) (e ∷ [])
              (i.placed b) (eq_of_parts (minute_of e.timestamp) b (ground arith), tt))
      | inr other ↦ rw (bucket_at-append_at, other) (i.placed b)
    ]

-- What is beyond the new horizon was beyond the old one, and is after the cutoff.
beyond-advance :
    (h : Option ℤ) (c : ℤ) (e : Event)
    → beyond (advance h c) e ≡ (beyond h e && is_after e.timestamp c)
beyond-advance none c e = refl
beyond-advance (some d) c e = ground arith

-- No event after the cutoff lies in a minute below that of the cutoff.
after_not_below :
    (c b : ℤ) (e : Event)
    → ltb_ℤ b (minute_of c) ≡ true
    → (is_after e.timestamp c && in_minute b e) ≡ false
after_not_below c b e low = ground (arith, minute_of_mono c e.timestamp)

cleanup_agrees :
    (h : Option ℤ) (now : ℤ) (s : EventStore)
    → Indexed h s
    → let c = now -ℤ s.max_retention in
      (b : ℤ) (q : Event → Bool)
      → count
          (λ e. beyond (advance h c) e && q e)
          (bucket_at b (drop_below (minute_of c) s.time_buckets))
        ≡ count
            (λ e. beyond (advance h c) e && (q e && in_minute b e))
            (filter (λ e. is_after e.timestamp c) s.events)
cleanup_agrees h now s i b q =
    let c = now -ℤ s.max_retention in
    let kept : Event → Bool = λ e. is_after e.timestamp c in
    let old_side : count (λ e. beyond (advance h c) e && q e) (bucket_at b s.time_buckets)
        ≡ count (λ e. beyond h e && (kept e && q e)) (bucket_at b s.time_buckets) =
      count_congr _ _ (bucket_at b s.time_buckets) (λ e. ground (arith, beyond-advance h c e)) in
    let new_side : count (λ e. kept e && (beyond (advance h c) e && (q e && in_minute b e)))
          s.events
        ≡ count (λ e. beyond h e && ((kept e && q e) && in_minute b e)) s.events =
      count_congr _ _ s.events (λ e. ground (arith, beyond-advance h c e)) in
    let rest = count-filter (λ e. beyond (advance h c) e && (q e && in_minute b e)) kept s.events in
    elim (Bool-cases (ltb_ℤ b (minute_of c))) [
      | inl low ↦
          let gone : count (λ e. kept e && (beyond (advance h c) e && (q e && in_minute b e)))
                s.events
              ≡ 0 =
            count_none _ s.events (λ e. ground (arith, after_not_below c b e low)) in
          rw (bucket_at-drop_below, low) (sym (rest ∙ gone))
      | inr high ↦
          rw (bucket_at-drop_below, high)
            (old_side ∙ i.agrees b (λ e. kept e && q e) ∙ sym new_side ∙ sym rest)
    ]

cleanup-Indexed :
    (h : Option ℤ) (now : ℤ) (s : EventStore)
    → Indexed h s
    → Indexed (advance h (now -ℤ s.max_retention)) (cleanup now s)
unfolding cleanup
cleanup-Indexed h now s i = record {
  agrees = cleanup_agrees h now s i;
  placed = λ b. elim (Bool-cases (ltb_ℤ b (minute_of (now -ℤ s.max_retention)))) [
    | inl low ↦ rw (bucket_at-drop_below, low) tt
    | inr high ↦ rw (bucket_at-drop_below, high) (i.placed b)
  ];
}

-- Storing an event keeps the index in agreement with the list, and moves the horizon to the cutoff of
-- the cleanup if one is due.
pub store_event-Indexed :
    (h : Option ℤ) (checked cut noted : ℤ) (e : Event) (s : EventStore)
    → Indexed h s
    → Indexed
        (if ltb_ℤ cleanup_interval (checked -ℤ s.last_cleanup)
          then advance h (cut -ℤ s.max_retention)
          else h)
        (store_event checked cut noted e s)
unfolding store_event append_event
store_event-Indexed h checked cut noted e s i =
    let a = append_event-Indexed h e s i in
    elim (Bool-cases (ltb_ℤ cleanup_interval (checked -ℤ s.last_cleanup))) [
      | inl due ↦ rw due (record {
        agrees = (cleanup-Indexed h cut (append_event e s) a).agrees;
        placed = (cleanup-Indexed h cut (append_event e s) a).placed;
      })
      | inr early ↦ rw early a
    ]
