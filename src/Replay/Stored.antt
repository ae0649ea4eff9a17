-- ===== src/Replay/Stored.antt =====
-- A replay over the event store in memory: the two components together.
use mathlib.Core.Path.{subst}
use high_performance_event_s.Common.{
  sym, inl, inr, Bool, true, String, List, [], some, length, if◌then◌else◌, All,
}
use high_performance_event_s.Common.Int.{ℤ}
use high_performance_event_s.Common.Outcome.{Outcome, ok, err, wrap}
use high_performance_event_s.Domain.Event.{Event}
use high_performance_event_s.Domain.Filter.{Regexp, EventFilter, matches, is_empty}
use high_performance_event_s.Store.{EventStore, StoreError, query}
use high_performance_event_s.Store.Retention.{InRange, query_by_time_sound}
use high_performance_event_s.Replay.{ReplayRequest, Settings, Surroundings, stream_replay_events}
use high_performance_event_s.Replay.Streams.{
  chosen, stream_replay_events-prefix, All-take, All-up_to,
}

-- The test of a query: an empty filter is not asked.
abbrev pub accepts : (R : Regexp) → EventFilter R → Event → Bool
accepts R f e = if is_empty R f then true else matches R f e

-- The store's answer to a replay, `msg` the message of its error.
unfoldable pub answer_of :
    (R : Regexp)
    → ℤ
    → EventFilter R
    → ReplayRequest
    → EventStore
    → (StoreError → String)
    → Outcome String (List Event)
answer_of R now f r s msg =
    wrap msg (query R now f (some (record { start = r.start_time; end = r.end_time })) s)

answer_of-cases :
    (R : Regexp) (now : ℤ) (f : EventFilter R) (r : ReplayRequest) (s : EventStore)
    → (msg : StoreError → String)
    → All
        (InRange r.start_time r.end_time (accepts R f))
        (elim (answer_of R now f r s msg) [ ok es ↦ es | err e ↦ [] ])
unfolding answer_of query
answer_of-cases R now f r s msg =
    elim (query_by_time_sound r.start_time r.end_time (accepts R f) s) [
      | inl (result, found, valid, all) ↦ rw found all
      | inr (bad, reversed) ↦ rw bad tt
    ]

All-chosen :
    (P : Event → Type 0) (limit : ℤ) (answer : Outcome String (List Event))
    → All P (elim answer [ ok es ↦ es | err e ↦ [] ])
    → All P (chosen limit answer)
All-chosen P limit (ok es) a = All-up_to P limit es a
All-chosen P limit (err e) a = tt

-- Whatever ends a replay over the store in memory, each event that it has sent lies in the range of
-- the request, both ends included, and is let through by the filter.
pub replay-InRange :
    (R : Regexp) (now : ℤ) (f : EventFilter R) (r : ReplayRequest) (s : EventStore)
    → (msg : StoreError → String) (c : Surroundings) (settings : Settings)
    → All
        (InRange r.start_time r.end_time (accepts R f))
        (stream_replay_events c settings r.limit (answer_of R now f r s msg)).sent
replay-InRange R now f r s msg c settings =
    let P = InRange r.start_time r.end_time (accepts R f) in
    let x = stream_replay_events c settings r.limit (answer_of R now f r s msg) in
    subst (λ sent. All P sent)
      (sym (stream_replay_events-prefix c settings r.limit (answer_of R now f r s msg)))
      (All-take P (length x.sent) (chosen r.limit (answer_of R now f r s msg))
        (All-chosen P r.limit (answer_of R now f r s msg) (answer_of-cases R now f r s msg)))
