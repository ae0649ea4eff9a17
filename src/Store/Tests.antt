-- ===== src/Store/Tests.antt =====
-- A store with three events, in the minutes 2, 2 and 3.
use high_performance_event_s.Common.{
  ◌≡◌, refl, Bool, true, ◌&&◌, String, List, [], ◌∷◌, none, arith, count, if◌then◌else◌,
}
use high_performance_event_s.Common.Int.{ℤ, pos, ltb_ℤ, ◌-ℤ◌, ◌+ℤ◌}
use high_performance_event_s.Common.Outcome.{ok, err}
use high_performance_event_s.Domain.Event.{Event, priority_medium}
use high_performance_event_s.Store.{
  EventStore, new_store, store_event, append_event, append_at, bucket_at, cleanup, cleanup_interval,
  minute_of, query_by_time, keeps, scan, count_between, get_by_id, not_found, drop_below,
}
use high_performance_event_s.Store.Index.{Indexed, advance, new_store-Indexed, store_event-Indexed}
use high_performance_event_s.Store.Query.{query_by_time-count}
use high_performance_event_s.Store.Paging.{query_with_pagination}
use high_performance_event_s.Store.Pages.{query_with_pagination-page}

abbrev at : ℤ → String → Event
at t id = record {
  id = id;
  source = "s";
  event_type = "t";
  subject = "";
  payload = 1 ∷ [];
  data_content_type = "text/plain";
  schema_url = "";
  timestamp = t;
  metadata = [];
  correlation_id = "";
  causation_id = "";
  partition_key = "";
  priority = priority_medium;
  created_at = t;
}

abbrev first : Event
first = at (pos 120_000_000_000) "a"

abbrev second : Event
second = at (pos 150_000_000_000) "b"

abbrev third : Event
third = at (pos 180_000_000_000) "c"

-- It keeps events for one minute, and was cleaned up when it was made.
abbrev empty : EventStore
empty = new_store (pos 60_000_000_000) (pos 120_000_000_000)

abbrev full : EventStore
full = append_event third (append_event second (append_event first empty))

abbrev everything : Event → Bool
everything e = true

program : Unit {0}
unfolding new_store store_event append_event append_at bucket_at minute_of query_by_time keeps scan
    cleanup drop_below get_by_id ◌-ℤ◌ ◌+ℤ◌ count_between
program = tt

found :
    query_by_time (pos 120_000_000_000) (pos 180_000_000_000) everything full
    ≡ ok (first ∷ second ∷ third ∷ [])
unfolding program
found = refl

-- After a cleanup at 200 s the cutoff is 140 s: the first event is gone from the list, not from the
-- index.
expired_in_list : get_by_id "a" (cleanup (pos 200_000_000_000) full) ≡ err not_found
unfolding program
expired_in_list = refl

expired_in_index :
    query_by_time
      (pos 120_000_000_000)
      (pos 130_000_000_000)
      everything
      (cleanup (pos 200_000_000_000) full)
    ≡ ok (first ∷ [])
unfolding program
expired_in_index = refl

empty-Indexed : Indexed none empty
empty-Indexed = new_store-Indexed (pos 60_000_000_000) (pos 120_000_000_000)

one : EventStore
one = store_event (pos 130_000_000_000) (pos 0) (pos 0) first empty

store_event-Indexed_example :
    Indexed
      (if ltb_ℤ cleanup_interval (pos 200_000_000_000 -ℤ empty.last_cleanup)
        then advance none (pos 200_000_000_000 -ℤ empty.max_retention)
        else none)
      (store_event (pos 200_000_000_000) (pos 200_000_000_000) (pos 200_000_000_000) first empty)
store_event-Indexed_example =
    store_event-Indexed none (pos 200_000_000_000) (pos 200_000_000_000) (pos 200_000_000_000) first
      empty empty-Indexed

query_by_time-count_example :
    (result : List Event) × (query_by_time (pos 0) (pos 180_000_000_000) everything one ≡ ok result)
    × ((q : Event → Bool)
        → count (λ e. true && q e) result
          ≡ count
              (λ e. true && (keeps (pos 0) (pos 180_000_000_000) everything e && q e))
              one.events)
unfolding program one
query_by_time-count_example =
    query_by_time-count none one
      (store_event-Indexed none (pos 130_000_000_000) (pos 0) (pos 0) first empty empty-Indexed)
      (pos 0) (pos 180_000_000_000) everything (omega arith)

query_with_pagination-page_example :
    query_with_pagination
      (pos 120_000_000_000)
      (pos 180_000_000_000)
      everything
      (pos 2)
      (pos 2)
      full
    ≡ ok (third ∷ [], 3)
query_with_pagination-page_example =
    query_with_pagination-page (pos 120_000_000_000) (pos 180_000_000_000) everything full found 1 2
      (omega arith) (omega arith)
