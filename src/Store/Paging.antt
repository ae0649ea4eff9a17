-- ===== src/Store/Paging.antt =====
-- `QueryWithPagination` (internal/infrastructure/replay/replay_store.go). The page bounds are Go
-- `int`s, which wrap around at 64 bits, and a slice expression out of bounds panics.
use high_performance_event_s.Common.{
  ℕ, ◌+◌, ◌-◌, ◌*◌, ◌%◌, Bool, List, [], length, take, drop, ltb, if◌then◌else◌,
}
use high_performance_event_s.Common.Int.{ℤ, pos, negsuc, ltb_ℤ, leb_ℤ, ◌+ℤ◌, pos_part}
use high_performance_event_s.Common.Outcome.{Outcome, ok, err, ◌>>=◌, ◌>>◌, reject_if}
use high_performance_event_s.Domain.Event.{Event}
use high_performance_event_s.Store.{
  EventStore, StoreError, bad_page_size, bad_page_number, slice_panic, query_by_time,
}

-- A number that is not negative, kept to 64 bits and read as a signed integer.
unfoldable pub wrap_64 : ℕ → ℤ
wrap_64 x =
    let r = x % 18446744073709551616 in
    if ltb r 9223372036854775808 then pos r else negsuc (18446744073709551615 - r)

-- `start + size` at 64 bits; no sum of a negative start and a size leaves the range.
unfoldable pub add_64 : ℤ → ℕ → ℤ
add_64 (pos m) n = wrap_64 (m + n)
add_64 (negsuc m) n = negsuc m +ℤ pos n

-- `xs[lo:hi]`
unfoldable pub slice : ℤ → ℤ → List Event → Outcome StoreError (List Event)
slice lo hi xs =
    if ltb_ℤ lo (pos 0)
    then err slice_panic
    else if ltb_ℤ hi lo
    then err slice_panic
    else if ltb_ℤ (pos (length xs)) hi
    then err slice_panic
    else ok (take (pos_part hi - pos_part lo) (drop (pos_part lo) xs))

-- The part of `QueryWithPagination` behind the query.
unfoldable pub page_of : ℕ → ℕ → List Event → Outcome StoreError (List Event × ℕ)
page_of page_size page_number all_events =
    let total = length all_events in
    let first = wrap_64 ((page_number - 1) * page_size) in
    let last = add_64 first page_size in
    if leb_ℤ (pos total) first then ok ([], total) else (do
      page ← slice first (if ltb_ℤ (pos total) last then pos total else last) all_events
      ok (page, total))

-- `QueryWithPagination`
unfoldable pub query_with_pagination :
    ℤ → ℤ → (Event → Bool) → ℤ → ℤ → EventStore → Outcome StoreError (List Event × ℕ)
query_with_pagination start end accept page_size page_number s = do
  reject_if (ltb_ℤ page_size (pos 1)) bad_page_size
  reject_if (ltb_ℤ page_number (pos 1)) bad_page_number
  all_events ← query_by_time start end accept s
  page_of (pos_part page_size) (pos_part page_number) all_events
