-- ===== src/Store.antt =====
-- The in-memory event store (internal/infrastructure/replay/replay_store.go): a list of events in
-- the order of arrival, and an index that keeps the events of each minute under its number.
-- An instant is the nanoseconds since the Unix epoch, which may be negative: `Unix()` rounds down
-- to seconds, and Go's `/ 60` rounds towards zero.
pub mod Minutes
pub mod Index
pub mod Query
pub mod Retention
pub mod Paging
pub mod Pages
mod Tests
use high_performance_event_s.Common.{
  ℕ, zero, suc, ◌+◌, ◌-◌, ◌*◌, ◌%◌, Bool, true, false, ◌&&◌, not, String, List, [], ◌∷◌, ◌++◌,
  Option, none, some, length, take, drop, filter, count, ltb, leb, ◌==◌, if◌then◌else◌, is_blank,
  str_eq,
}
use high_performance_event_s.Common.Int.{
  ℤ, pos, negsuc, ltb_ℤ, leb_ℤ, eqb_ℤ, ◌+ℤ◌, ◌-ℤ◌, div_floor, div_trunc, pos_part,
}
use high_performance_event_s.Common.Outcome.{Outcome, ok, err, ◌>>=◌, ◌>>◌, reject_if}
use high_performance_event_s.Domain.Event.{Event}
use high_performance_event_s.Domain.Filter.{Regexp, EventFilter, matches, is_empty}

-- `map[int64][]*entity.Event`
abbrev pub Buckets : Type 0
Buckets = List (ℤ × List Event)

pub record EventStore : Type 0 where
  pub events : List Event
  pub max_retention : ℤ
  pub last_cleanup : ℤ
  pub time_buckets : Buckets

pub data StoreError : Type 0 where
  nil_event bad_range bad_page_size bad_page_number empty_id not_found bad_limit slice_panic :
      StoreError

-- `NewInMemoryEventStore`
unfoldable pub new_store : ℤ → ℤ → EventStore
new_store max_retention now = record {
  events = [];
  max_retention = max_retention;
  last_cleanup = now;
  time_buckets = [];
}

-- `t.Unix() / 60`
unfoldable pub minute_of : ℤ → ℤ
minute_of t = div_trunc (div_floor t 1_000_000_000) 60

-- `timeBuckets[b]`, which is nil where the key is missing
unfoldable pub bucket_at : ℤ → Buckets → List Event
bucket_at b [] = []
bucket_at b ((k, es) ∷ m) = if eqb_ℤ k b then es else bucket_at b m

-- `timeBuckets[b] = append(timeBuckets[b], event)`
unfoldable pub append_at : ℤ → Event → Buckets → Buckets
append_at b e [] = (b, e ∷ []) ∷ []
append_at b e ((k, es) ∷ m) = if eqb_ℤ k b then (k, es ++ e ∷ []) ∷ m else (k, es) ∷ append_at b e m

-- `for bucket := range timeBuckets { if bucket < cutoffBucket { delete(…) } }`
unfoldable pub drop_below : ℤ → Buckets → Buckets
drop_below cut [] = []
drop_below cut ((k, es) ∷ m) =
    let rest = drop_below cut m in if ltb_ℤ k cut then rest else (k, es) ∷ rest

-- `t.After(u)`, `t.Before(u)`
abbrev pub is_after : ℤ → ℤ → Bool
is_after t u = ltb_ℤ u t

abbrev pub is_before : ℤ → ℤ → Bool
is_before t u = ltb_ℤ t u

-- `cleanup`; `now` is its reading of the clock.
unfoldable pub cleanup : ℤ → EventStore → EventStore
cleanup now s =
    let cutoff = now -ℤ s.max_retention in
    record s {
      events = filter (λ e. is_after e.timestamp cutoff) s.events;
      time_buckets = drop_below (minute_of cutoff) s.time_buckets;
    }

-- `1*time.Minute`
abbrev pub cleanup_interval : ℤ
cleanup_interval = pos 60_000_000_000

-- The two appends of `Store`.
unfoldable pub append_event : Event → EventStore → EventStore
append_event e s = record s {
  events = s.events ++ e ∷ [];
  time_buckets = append_at (minute_of e.timestamp) e s.time_buckets;
}

-- `Store`, without the check for nil; the three instants are its readings of the clock, the second
-- that of `cleanup`.
unfoldable pub store_event : ℤ → ℤ → ℤ → Event → EventStore → EventStore
store_event checked cut noted e s =
    let added = append_event e s in
    if ltb_ℤ cleanup_interval (checked -ℤ s.last_cleanup)
    then record (cleanup cut added) { last_cleanup = noted }
    else added

-- `Store`
unfoldable pub store : ℤ → ℤ → ℤ → Option Event → EventStore → Outcome StoreError EventStore
store checked cut noted none s = err nil_event
store checked cut noted (some e) s = ok (store_event checked cut noted e s)

-- The test of the inner loop of `queryByTime`: in the time range, and let through by the filter.
unfoldable pub keeps : ℤ → ℤ → (Event → Bool) → Event → Bool
keeps start end accept e =
    not (is_before e.timestamp start) && (not (is_after e.timestamp end) && accept e)

-- `for bucket := b; bucket <= last; bucket++`, in at most as many rounds as the fuel.
unfoldable pub scan : ℕ → ℤ → ℤ → (Event → Bool) → Buckets → List Event
scan zero b last keep m = []
scan (suc fuel) b last keep m =
    let rest = scan fuel (b +ℤ pos 1) last keep m in
    if leb_ℤ b last then filter keep (bucket_at b m) ++ rest else []

-- `queryByTime`; the rounds of its loop are those from the first minute to the last.
unfoldable pub query_by_time : ℤ → ℤ → (Event → Bool) → EventStore → Outcome StoreError (List Event)
unfolding keeps
query_by_time start end accept s =
    if is_after start end
    then err bad_range
    else (let first = minute_of start in
        let last = minute_of end in
        let rounds = pos_part (last -ℤ first +ℤ pos 1) in
        ok (scan rounds first last (keeps start end accept) s.time_buckets))

-- The instant of `time.Time{}`, 1 January of the year 1.
abbrev pub zero_time : ℤ
zero_time = negsuc 62135596799999999999

pub record TimeRange : Type 0 where
  pub start : ℤ
  pub end : ℤ

-- `Query`; `now` is read where there is no time range.
unfoldable pub query :
    (R : Regexp)
    → ℤ
    → EventFilter R
    → Option TimeRange
    → EventStore
    → Outcome StoreError (List Event)
query R now f range s =
    let accept : Event → Bool = λ e. if is_empty R f then true else matches R f e in
    elim range [
      | none ↦ query_by_time zero_time now accept s
      | some r ↦ query_by_time r.start r.end accept s
    ]

-- `Count`
unfoldable pub count_between : ℤ → ℤ → EventStore → ℕ
count_between start end s =
    count (λ e. is_after e.timestamp start && is_before e.timestamp end) s.events

-- The loop of `GetByID`
unfoldable pub find_id : String → List Event → Option Event
find_id id [] = none
find_id id (e ∷ es) = if str_eq e.id id then some e else find_id id es

-- `GetByID`, and `Get`, which calls it
unfoldable pub get_by_id : String → EventStore → Outcome StoreError Event
unfolding find_id
get_by_id id s =
    if is_blank id
    then err empty_id
    else (elim (find_id id s.events) [ none ↦ err not_found | some e ↦ ok e ])

-- `Clear`
unfoldable pub clear : EventStore → EventStore
clear s = record s { events = []; time_buckets = [] }
