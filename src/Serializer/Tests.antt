-- ===== src/Serializer/Tests.antt =====
-- An event to bytes and back.
use high_performance_event_s.Common.{◌≡◌, refl, [], ◌∷◌}
use high_performance_event_s.Common.Int.{pos}
use high_performance_event_s.Common.Dict.{merge}
use high_performance_event_s.Common.Outcome.{ok}
use high_performance_event_s.Domain.Event.{
  Event, new_event, validate, copy, with_metadata, with_correlation, with_priority,
  with_partition_key, with_schema_url,
}
use high_performance_event_s.Serializer.{
  apply_optional, deserialize, serializer_factory, protobuf_serializer,
}
use high_performance_event_s.Serializer.Sample.{
  codec, codec-Faithful, paid_event, paid_event_valid, paid_event_serialized,
}
use high_performance_event_s.Serializer.Restoring.{Restored, deserialize-serialize}

program : Unit {0}
unfolding deserialize apply_optional new_event validate copy with_metadata with_correlation
    with_priority with_partition_key with_schema_url merge serializer_factory
program = tt

-- The timestamp is that of the deserialization.
late :
    ((e : Event) × (deserialize codec (pos 90) (pos 91) (123 ∷ []) ≡ ok e) × (e.timestamp ≡ pos 90))
unfolding program
late = (_, refl, refl)

by_content_type : serializer_factory "application/octet-stream" ≡ protobuf_serializer
unfolding program
by_content_type = refl

deserialize-serialize_example :
    (e : Event) × (deserialize codec (pos 90) (pos 91) (123 ∷ []) ≡ ok e)
    × Restored codec.compact (pos 90) (pos 91) paid_event e
deserialize-serialize_example =
    deserialize-serialize codec (pos 90) (pos 91) paid_event (123 ∷ []) codec-Faithful
      paid_event_valid paid_event_serialized
