-- ===== src/Serializer.antt =====
-- The serializers (internal/infrastructure/kafka/serializer.go) and the fields that an event is
-- marshalled with (`MarshalJSON` of internal/domain/entity/event.go). The encoding of a struct of
-- these fields and its decoding are those of encoding/json: the parameter `Json`.
pub mod Restoring
pub mod Sample
mod Tests
use high_performance_event_s.Common.{
  ℕ, ◌+◌, ◌-◌, ◌≡◌, ◌<◌, Bool, ◌||◌, not, String, List, [], ◌∷◌, ◌++◌, Option, none, some, length,
  take, ltb, ◌==◌, if◌then◌else◌, is_blank, str_eq,
}
use high_performance_event_s.Common.Int.{ℤ, pos, ltb_ℤ}
use high_performance_event_s.Common.Dict.{Dict, IsMap, lookup}
use high_performance_event_s.Common.Outcome.{Outcome, ok, err}
use high_performance_event_s.Domain.Event.{
  Event, EventError, new_event, with_metadata, with_correlation, with_priority, with_partition_key,
  with_schema_url,
}

-- `eventJSON`, the struct that `MarshalJSON` encodes; `stamp` is the type of its timestamp.
pub record EventJson (Stamp : Type 0) : Type 0 where
  pub id : String
  pub source : String
  pub event_type : String
  pub subject : String
  pub payload : List ℕ
  pub data_content_type : String
  pub schema_url : String
  pub timestamp : Stamp
  pub metadata : Dict String
  pub correlation_id : String
  pub causation_id : String
  pub partition_key : String
  pub priority : ℤ

-- `eventDeserializationDTO`: the same fields, the timestamp as a text
abbrev pub EventDeserializationDto : Type 0
EventDeserializationDto = EventJson String

-- encoding/json on these structs: `encode` is `json.Marshal`, an error where the payload is not a JSON
-- document or the year of the timestamp is out of range; `decode` is `json.Unmarshal`.
pub record Json : Type 0 where
  pub encode : EventJson ℤ → Outcome String (List ℕ)
  pub decode : List ℕ → Outcome String EventDeserializationDto
  -- the document of a payload as it stands in an encoding, without the spaces between its tokens
  pub compact : List ℕ → List ℕ

-- The fields that `MarshalJSON` hands to `json.Marshal`
unfoldable pub marshal_fields : Event → EventJson ℤ
marshal_fields e = record {
  id = e.id;
  source = e.source;
  event_type = e.event_type;
  subject = e.subject;
  payload = e.payload;
  data_content_type = e.data_content_type;
  schema_url = e.schema_url;
  timestamp = e.timestamp;
  metadata = e.metadata;
  correlation_id = e.correlation_id;
  causation_id = e.causation_id;
  partition_key = e.partition_key;
  priority = e.priority;
}

pub data SerializerError : Type 0 where
  nil_event empty_data not_implemented : SerializerError
  marshal_failed : String → SerializerError
  unmarshal_failed : String → SerializerError
  invalid_event : EventError → SerializerError

module _ (J : Json) where
  -- `json.NewEncoder(buf).Encode(event)`: the encoding and a new line behind what the buffer holds
  unfoldable pub encode_into : List ℕ → Event → Outcome String (List ℕ)
  unfolding marshal_fields
  encode_into buffer e = elim (J.encode (marshal_fields e)) [
    | err x ↦ err x
    | ok bytes ↦ ok (buffer ++ (bytes ++ 10 ∷ []))
  ]

  -- `JSONSerializer.Serialize`, with the buffer that the pool gives; the second result is the buffer
  -- that goes back into the pool, if one was taken.
  unfoldable pub serialize :
      List ℕ → Option Event → Outcome SerializerError (List ℕ) × Option (List ℕ)
  unfolding encode_into
  serialize buffer none = (err nil_event, none)
  serialize buffer (some e) = (
    elim (encode_into buffer e) [
      | err x ↦ err (marshal_failed x)
      | ok written ↦ ok (take (length written - 1) written)
    ],
    some [],
  )

  -- The optional fields of `Deserialize`, in the order of the source
  unfoldable pub apply_optional : EventDeserializationDto → Event → Event
  apply_optional d e =
      let e1 = if is_blank d.schema_url then e else with_schema_url d.schema_url e in
      let e2 =
        if not (is_blank d.correlation_id) || not (is_blank d.causation_id)
        then with_correlation d.correlation_id d.causation_id e1
        else e1 in
      let e3 = if ltb 0 (length d.metadata) then with_metadata d.metadata e2 else e2 in
      let e4 = if ltb_ℤ (pos 0) d.priority then with_priority d.priority e3 else e3 in
      if is_blank d.partition_key then e4 else with_partition_key d.partition_key e4

  -- `JSONSerializer.Deserialize`, with the two readings of the clock of `NewEvent`
  unfoldable pub deserialize : ℤ → ℤ → List ℕ → Outcome SerializerError Event
  unfolding apply_optional
  deserialize timestamp created_at bytes =
      if length bytes == 0 then err empty_data else (elim (J.decode bytes) [
        | err x ↦ err (unmarshal_failed x)
        | ok d ↦
            elim (new_event timestamp created_at d.id d.source d.event_type d.subject d.payload
              d.data_content_type) [
                | err x ↦ err (invalid_event x)
                | ok e ↦ ok (apply_optional d e)
              ]
      ])

-- `ProtobufSerializer.Serialize`
unfoldable pub protobuf_serialize : Option Event → Outcome SerializerError (List ℕ)
protobuf_serialize none = err nil_event
protobuf_serialize (some e) = err not_implemented

-- `ProtobufSerializer.Deserialize`
unfoldable pub protobuf_deserialize : List ℕ → Outcome SerializerError Event
protobuf_deserialize bytes = if length bytes == 0 then err empty_data else err not_implemented

-- The serializers that the factory creates
pub data Serializer : Type 0 where
  json_serializer protobuf_serializer : Serializer

-- `SerializerFactory`; its error is always nil.
unfoldable pub serializer_factory : String → Serializer
serializer_factory content_type =
    if str_eq content_type "application/json"
    then json_serializer
    else (if str_eq content_type "application/protobuf"
        then protobuf_serializer
        else (if str_eq content_type "application/octet-stream"
            then protobuf_serializer
            else json_serializer))
