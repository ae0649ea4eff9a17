-- ===== src/Api/Messages.antt =====
-- The messages of proto/event/v1/event.proto and their conversion (internal/api/grpc/converter.go).
use high_performance_event_s.Common.{ℕ, String, List, [], Option, none, some, if◌then◌else◌}
use high_performance_event_s.Common.Int.{ℤ, pos, eqb_ℤ}
use high_performance_event_s.Common.Dict.{Dict}
use high_performance_event_s.Domain.Event.{
  Event, Priority, priority_low, priority_medium, priority_high, priority_critical,
}
use high_performance_event_s.Requests.{IngestEventRequest, EventFilterDto}
use high_performance_event_s.Replay.{ReplayRequest}
use high_performance_event_s.Subscriptions.{SubscribeRequest}

-- `codes.Code`, those that the handlers answer with
pub data Code : Type 0 where
  invalid_argument internal not_found unimplemented canceled : Code

-- `eventv1.Event`; the priority is an enumeration whose number can be any, a map that is nil is empty, and
-- the timestamp, which only answers have, is in nanoseconds.
pub record ProtoEvent : Type 0 where
  pub id : String
  pub source : String
  pub event_type : String
  pub subject : String
  pub payload : List ℕ
  pub data_content_type : String
  pub schema_url : String
  pub timestamp : ℤ
  pub metadata : Dict String
  pub correlation_id : String
  pub causation_id : String
  pub partition_key : String
  pub priority : ℤ

-- `eventv1.EventFilter`
pub record ProtoFilter : Type 0 where
  pub source_pattern : String
  pub type_pattern : String
  pub subject_pattern : String
  pub metadata_filters : Dict String
  pub priority_filter : ℤ

-- `eventv1.ReplayRequest`; a timestamp that is nil is the epoch.
pub record ProtoReplayRequest : Type 0 where
  pub proto_filter : Option ProtoFilter
  pub start_time : Option ℤ
  pub end_time : Option ℤ

-- `eventProtoToDTO`, of a request that is not nil, with its event
unfoldable pub event_proto_to_dto : Option ProtoEvent → Option IngestEventRequest
event_proto_to_dto none = none
event_proto_to_dto (some e) = some (record {
  source = e.source;
  event_type = e.event_type;
  subject = e.subject;
  payload = e.payload;
  data_content_type = e.data_content_type;
  schema_url = e.schema_url;
  metadata = e.metadata;
  correlation_id = e.correlation_id;
  causation_id = e.causation_id;
  partition_key = e.partition_key;
  priority = e.priority;
})

-- `priorityDomainToProto`, to the numbers of the enumeration
unfoldable pub priority_domain_to_proto : Priority → ℤ
priority_domain_to_proto p =
    if eqb_ℤ p priority_low
    then pos 1
    else (if eqb_ℤ p priority_medium
        then pos 2
        else (if eqb_ℤ p priority_high
            then pos 3
            else (if eqb_ℤ p priority_critical then pos 4 else pos 0)))

-- `eventEntityToProto`
unfoldable pub event_entity_to_proto : Event → ProtoEvent
unfolding priority_domain_to_proto
event_entity_to_proto e = record {
  id = e.id;
  source = e.source;
  event_type = e.event_type;
  subject = e.subject;
  payload = e.payload;
  data_content_type = e.data_content_type;
  schema_url = e.schema_url;
  timestamp = e.timestamp;
  metadata = e.metadata;
  correlation_id = e.correlation_id;
  causation_id = e.causation_id;
  partition_key = e.partition_key;
  priority = priority_domain_to_proto e.priority;
}

-- The filter of a subscription, of a replay and of a routing rule
unfoldable pub filter_dto : Option ProtoFilter → EventFilterDto
filter_dto none = record {
  source_pattern = "";
  type_pattern = "";
  subject_pattern = "";
  metadata_filters = [];
  min_priority = pos 0;
}
filter_dto (some f) = record {
  source_pattern = f.source_pattern;
  type_pattern = f.type_pattern;
  subject_pattern = f.subject_pattern;
  metadata_filters = f.metadata_filters;
  min_priority = f.priority_filter;
}

-- `subscribeRequestProtoToDTO`
unfoldable pub subscribe_request_proto_to_dto : Option ProtoFilter → SubscribeRequest
unfolding filter_dto
subscribe_request_proto_to_dto f = record {
  event_filter = some (filter_dto f);
  group_id = "";
  consumer_id = "";
}

-- `AsTime`, also of nil
abbrev pub as_time : Option ℤ → ℤ
as_time none = pos 0
as_time (some t) = t

-- `replayRequestProtoToDTO`
unfoldable pub replay_request_proto_to_dto : ProtoReplayRequest → ReplayRequest
unfolding filter_dto
replay_request_proto_to_dto r = record {
  start_time = as_time r.start_time;
  end_time = as_time r.end_time;
  event_filter = some (filter_dto r.proto_filter);
  limit = pos 0;
}
