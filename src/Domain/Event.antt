-- ===== src/Domain/Event.antt =====
-- The event entity (internal/domain/entity/event.go) and the priorities of
-- internal/domain/valueobject/filter.go. An event is immutable: every `With…` method returns a copy.
-- A byte slice is a list of numbers, an instant the nanoseconds since the Unix epoch, and a map
-- that is `nil` or empty is the empty dictionary.
use high_performance_event_s.Common.{ℕ, Bool, ◌||◌, String, List, [], length, ◌==◌, is_blank}
use high_performance_event_s.Common.Int.{ℤ, pos, eqb_ℤ}
use high_performance_event_s.Common.Dict.{Dict, merge}
use high_performance_event_s.Common.Outcome.{Outcome, ok, ◌>>◌, reject_if}

-- `Priority` is an `int`: values outside the five constants are possible.
abbrev pub Priority : Type 0
Priority = ℤ

abbrev pub priority_unspecified : Priority
priority_unspecified = pos 0

abbrev pub priority_low : Priority
priority_low = pos 1

abbrev pub priority_medium : Priority
priority_medium = pos 2

abbrev pub priority_high : Priority
priority_high = pos 3

abbrev pub priority_critical : Priority
priority_critical = pos 4

pub record Event : Type 0 where
  pub id : String
  pub source : String
  pub event_type : String
  pub subject : String
  pub payload : List ℕ
  pub data_content_type : String
  pub schema_url : String
  pub timestamp : ℤ
  pub metadata : Dict String
  pub correlation_id : String
  pub causation_id : String
  pub partition_key : String
  pub priority : Priority
  pub created_at : ℤ

pub data EventError : Type 0 where
  empty_id empty_source empty_type empty_data empty_content_type : EventError

-- `Validate`: the checks in the order of the source.
unfoldable pub validate : Event → Outcome EventError (Unit {0})
validate e = do
  reject_if (is_blank e.id) empty_id
  reject_if (is_blank e.source) empty_source
  reject_if (is_blank e.event_type) empty_type
  reject_if (length e.payload == 0) empty_data
  reject_if (is_blank e.data_content_type) empty_content_type
  ok tt

-- `NewEvent`; `timestamp` and `created_at` are its two readings of the clock.
unfoldable pub new_event :
    ℤ → ℤ → String → String → String → String → List ℕ → String → Outcome EventError Event
new_event timestamp created_at id source event_type subject payload data_content_type =
    let e : Event = record {
      id = id;
      source = source;
      event_type = event_type;
      subject = subject;
      payload = payload;
      data_content_type = data_content_type;
      schema_url = "";
      timestamp = timestamp;
      metadata = [];
      correlation_id = "";
      causation_id = "";
      partition_key = "";
      priority = priority_medium;
      created_at = created_at;
    } in
    do validate e; ok e

-- `copy` makes a new metadata map with the same entries, so a copy is the same value.
unfoldable pub copy : Event → Event
copy e = record e { metadata = merge [] e.metadata }

unfoldable pub with_metadata : Dict String → Event → Event
unfolding copy
with_metadata extra e = let c = copy e in record c { metadata = merge c.metadata extra }

unfoldable pub with_correlation : String → String → Event → Event
unfolding copy
with_correlation correlation causation e =
    let c = copy e in record c { correlation_id = correlation; causation_id = causation }

unfoldable pub with_priority : Priority → Event → Event
unfolding copy
with_priority p e = let c = copy e in record c { priority = p }

unfoldable pub with_partition_key : String → Event → Event
unfolding copy
with_partition_key key e = let c = copy e in record c { partition_key = key }

unfoldable pub with_schema_url : String → Event → Event
unfolding copy
with_schema_url url e = let c = copy e in record c { schema_url = url }

-- `IsHighPriority`
unfoldable pub is_high_priority : Event → Bool
is_high_priority e = eqb_ℤ e.priority priority_high || eqb_ℤ e.priority priority_critical
