-- ===== src/Requests.antt =====
-- The requests of the application layer (internal/application/dto), turned into entities.
use high_performance_event_s.Common.{
  ℕ, ◌&&◌, ◌||◌, not, String, List, length, ltb, if◌then◌else◌, is_blank,
}
use high_performance_event_s.Common.Int.{ℤ, pos, ltb_ℤ, leb_ℤ}
use high_performance_event_s.Common.Dict.{Dict}
use high_performance_event_s.Common.Outcome.{Outcome, ok, ◌>>=◌}
use high_performance_event_s.Domain.Event.{
  Event, EventError, priority_critical, new_event, with_metadata, with_correlation, with_priority,
  with_partition_key, with_schema_url,
}
use high_performance_event_s.Domain.Filter.{Regexp, EventFilter, FilterError, new_event_filter}

-- `IngestEventRequest`
pub record IngestEventRequest : Type 0 where
  pub source : String
  pub event_type : String
  pub subject : String
  pub payload : List ℕ
  pub data_content_type : String
  pub schema_url : String
  pub metadata : Dict String
  pub correlation_id : String
  pub causation_id : String
  pub partition_key : String
  pub priority : ℤ

-- What one conversion takes from outside: the identifier, and two readings of the clock.
pub record Fresh : Type 0 where
  pub id : String
  pub timestamp : ℤ
  pub created_at : ℤ

-- The optional fields of `ToEntity`, in the order of the source.
unfoldable pub apply_optional : IngestEventRequest → Event → Event
apply_optional r e =
    let e1 = if is_blank r.schema_url then e else with_schema_url r.schema_url e in
    let e2 = if ltb 0 (length r.metadata) then with_metadata r.metadata e1 else e1 in
    let e3 =
      if not (is_blank r.correlation_id) || not (is_blank r.causation_id)
      then with_correlation r.correlation_id r.causation_id e2
      else e2 in
    let e4 = if is_blank r.partition_key then e3 else with_partition_key r.partition_key e3 in
    if ltb_ℤ (pos 0) r.priority && leb_ℤ r.priority priority_critical
    then with_priority r.priority e4
    else e4

-- `IngestEventRequest.ToEntity`
unfoldable pub to_entity : IngestEventRequest → Fresh → Outcome EventError Event
unfolding apply_optional
to_entity r f = do
  e ←
      new_event f.timestamp f.created_at f.id r.source r.event_type r.subject r.payload
        r.data_content_type
  ok (apply_optional r e)

-- `EventFilterDTO`
pub record EventFilterDto : Type 0 where
  pub source_pattern : String
  pub type_pattern : String
  pub subject_pattern : String
  pub metadata_filters : Dict String
  pub min_priority : ℤ

-- `EventFilterDTO.ToValueObject`
unfoldable pub to_event_filter : (R : Regexp) → EventFilterDto → Outcome FilterError (EventFilter R)
to_event_filter R f =
    new_event_filter R f.source_pattern f.type_pattern f.subject_pattern f.metadata_filters
      f.min_priority
