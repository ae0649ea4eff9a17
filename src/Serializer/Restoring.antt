-- ===== src/Serializer/Restoring.antt =====
-- What a serialized event is deserialized to.

use high_performance_event_s.Common.{
  ℕ, ◌-◌, ◌<◌, ◌≡◌, refl, ◌∙◌, inl, inr, false, String, List, [], ◌∷◌, ◌++◌, none, some, arith,
  if◌then◌else◌, length, take, ltb, eq_iff,
}
use high_performance_event_s.Common.Int.{ℤ, pos, ltb_ℤ}
use high_performance_event_s.Common.Dict.{Dict, IsMap, lookup, merge, lookup-merge, merge-IsMap}
use high_performance_event_s.Common.Outcome.{ok, Outcome-cases}
use high_performance_event_s.Domain.Event.{
  Event, priority_medium, new_event, validate, copy, with_metadata, with_correlation, with_priority,
  with_partition_key, with_schema_url,
}
use high_performance_event_s.Serializer.{
  Json, EventJson, EventDeserializationDto, marshal_fields, encode_into, serialize, apply_optional,
  deserialize,
}

-- The decoded fields are the encoded ones: the texts and the priority are kept, the payload is
-- compacted, and the metadata is the same map, in some order.
pub record SameFields (compact : List ℕ → List ℕ) (j : EventJson ℤ) (d : EventDeserializationDto)
    : Type 0 where
  pub id : d.id ≡ j.id
  pub source : d.source ≡ j.source
  pub event_type : d.event_type ≡ j.event_type
  pub subject : d.subject ≡ j.subject
  pub payload : d.payload ≡ compact j.payload
  pub data_content_type : d.data_content_type ≡ j.data_content_type
  pub schema_url : d.schema_url ≡ j.schema_url
  pub metadata_map : IsMap d.metadata
  pub metadata : (k : String) → lookup k d.metadata ≡ lookup k j.metadata
  pub correlation_id : d.correlation_id ≡ j.correlation_id
  pub causation_id : d.causation_id ≡ j.causation_id
  pub partition_key : d.partition_key ≡ j.partition_key
  pub priority : d.priority ≡ j.priority

-- What is relied on of encoding/json: an encoding is not empty and decodes to the fields; the compacted
-- form of a document is not empty.
pub record Faithful (J : Json) : Type 0 where
  pub not_empty : (j : EventJson ℤ) (bytes : List ℕ) → J.encode j ≡ ok bytes → 0 < length bytes
  pub decodes :
      (j : EventJson ℤ) (bytes : List ℕ)
      → J.encode j ≡ ok bytes
      → (d : EventDeserializationDto) × (J.decode bytes ≡ ok d) × SameFields J.compact j d
  pub compacts :
      (j : EventJson ℤ) (bytes : List ℕ)
      → J.encode j ≡ ok bytes
      → 0 < length j.payload
      → 0 < length (J.compact j.payload)

-- The event that comes back: all fields but the two instants, a compacted payload, and the medium priority
-- for one that is not positive.
pub record Restored (compact : List ℕ → List ℕ) (timestamp created_at : ℤ) (e e' : Event)
    : Type 0 where
  pub id : e'.id ≡ e.id
  pub source : e'.source ≡ e.source
  pub event_type : e'.event_type ≡ e.event_type
  pub subject : e'.subject ≡ e.subject
  pub payload : e'.payload ≡ compact e.payload
  pub data_content_type : e'.data_content_type ≡ e.data_content_type
  pub schema_url : e'.schema_url ≡ e.schema_url
  pub metadata : (k : String) → lookup k e'.metadata ≡ lookup k e.metadata
  pub correlation_id : e'.correlation_id ≡ e.correlation_id
  pub causation_id : e'.causation_id ≡ e.causation_id
  pub partition_key : e'.partition_key ≡ e.partition_key
  pub priority : e'.priority ≡ (if ltb_ℤ (pos 0) e.priority then e.priority else priority_medium)
  pub timestamp_now : e'.timestamp ≡ timestamp
  pub created_now : e'.created_at ≡ created_at

take-append : (xs : List ℕ) (n : ℕ) → take (length (xs ++ n ∷ []) - 1) (xs ++ n ∷ []) ≡ xs
take-append [] n = refl
take-append (x ∷ []) n = refl
take-append (x ∷ y ∷ xs) n = ground (arith, take-append (y ∷ xs) n)

-- A serialization with an empty buffer succeeds exactly with the encoding.
serialize-encode :
    (J : Json) (e : Event) (bytes : List ℕ)
    → (serialize J [] (some e)).0 ≡ ok bytes
    → J.encode (marshal_fields e) ≡ ok bytes
unfolding serialize encode_into
serialize-encode J e bytes h = elim (Outcome-cases (J.encode (marshal_fields e))) [
  | inl (b, k) ↦ ground (arith, h, k, take-append b 10)
  | inr (x, k) ↦ ground (arith, h, k)
]

lookup-copied : (k : String) (m : Dict String) → IsMap m → lookup k (merge [] m) ≡ lookup k m
unfolding lookup
lookup-copied k m h = ground (arith, lookup-merge k [] m h)

copied-IsMap : (m : Dict String) → IsMap m → IsMap (merge [] m)
copied-IsMap m h = merge-IsMap [] m tt

lookup-empty : (k : String) (m : Dict String) → ltb 0 (length m) ≡ false → lookup k m ≡ none
unfolding lookup
lookup-empty k [] h = refl
lookup-empty k (x ∷ m) h = absurd (ground (arith, h))

-- The metadata after the optional fields: those decoded, whatever copies are made.
apply_optional-metadata :
    (J : Json) (d : EventDeserializationDto) (e : Event) (k : String)
    → IsMap d.metadata
    → e.metadata ≡ []
    → lookup k (apply_optional J d e).metadata ≡ lookup k d.metadata
unfolding apply_optional with_metadata with_correlation with_priority with_partition_key
    with_schema_url copy lookup merge
apply_optional-metadata J d e k h none_yet =
    let m = d.metadata in
    let once = copied-IsMap m h in
    let twice = copied-IsMap (merge [] m) once in
    ground (
      arith,
      none_yet,
      lookup-copied k m h,
      lookup-copied k (merge [] m) once,
      lookup-copied k (merge [] (merge [] m)) twice,
      lookup-empty k m,
    )

-- The event that `NewEvent` makes from a decoded struct.
abbrev pub bare : ℤ → ℤ → EventDeserializationDto → Event
bare t u d = record {
  id = d.id;
  source = d.source;
  event_type = d.event_type;
  subject = d.subject;
  payload = d.payload;
  data_content_type = d.data_content_type;
  schema_url = "";
  timestamp = t;
  metadata = [];
  correlation_id = "";
  causation_id = "";
  partition_key = "";
  priority = priority_medium;
  created_at = u;
}

new_event-decoded :
    (t u : ℤ) (e : Event) (d : EventDeserializationDto) (compact : List ℕ → List ℕ)
    → validate e ≡ ok tt
    → SameFields compact (marshal_fields e) d
    → 0 < length (compact e.payload)
    → new_event t u d.id d.source d.event_type d.subject d.payload d.data_content_type
      ≡ ok (bare t u d)
unfolding new_event validate marshal_fields
new_event-decoded t u e d compact v s p =
    ground (arith, v, s.id, s.source, s.event_type, s.payload, s.data_content_type, p)

payload_marshalled : (e : Event) → validate e ≡ ok tt → 0 < length (marshal_fields e).payload
unfolding validate marshal_fields
payload_marshalled e v = ground (arith, v)

solid_payload :
    (J : Json) (e : Event)
    → 0 < length (J.compact (marshal_fields e).payload)
    → 0 < length (J.compact e.payload)
unfolding marshal_fields
solid_payload J e h = h

-- The optional fields bring back what was encoded.
apply_optional-Restored :
    (J : Json) (t u : ℤ) (e : Event) (d : EventDeserializationDto)
    → SameFields J.compact (marshal_fields e) d
    → Restored J.compact t u e (apply_optional J d (bare t u d))
unfolding apply_optional with_metadata with_correlation with_priority with_partition_key
    with_schema_url copy marshal_fields
apply_optional-Restored J t u e d s = record {
  id = ground (arith, s.id);
  source = ground (arith, s.source);
  event_type = ground (arith, s.event_type);
  subject = ground (arith, s.subject);
  payload = ground (arith, s.payload);
  data_content_type = ground (arith, s.data_content_type);
  schema_url = ground (arith, s.schema_url, eq_iff d.schema_url "");
  metadata = λ k. apply_optional-metadata J d (bare t u d) k s.metadata_map refl ∙ s.metadata k;
  correlation_id = ground (arith, s.correlation_id, eq_iff d.correlation_id "");
  causation_id = ground (arith, s.causation_id, eq_iff d.causation_id "");
  partition_key = ground (arith, s.partition_key, eq_iff d.partition_key "");
  priority = ground (arith, s.priority);
  timestamp_now = ground arith;
  created_now = ground arith;
}

-- A valid event that is serialized into an empty buffer is deserialized with every field as it was, but
-- for its payload, which is compacted, a priority that is not positive, which becomes medium, and its two
-- instants, which become those of the deserialization.
pub deserialize-serialize :
    (J : Json) (t u : ℤ) (e : Event) (bytes : List ℕ)
    → Faithful J
    → validate e ≡ ok tt
    → (serialize J [] (some e)).0 ≡ ok bytes
    → (e' : Event) × (deserialize J t u bytes ≡ ok e') × Restored J.compact t u e e'
unfolding deserialize
deserialize-serialize J t u e bytes faithful v h =
    let encoded = serialize-encode J e bytes h in
    let (d, decoded, same) = faithful.decodes (marshal_fields e) bytes encoded in
    let solid = faithful.compacts (marshal_fields e) bytes encoded (payload_marshalled e v) in
    let made = new_event-decoded t u e d J.compact v same (solid_payload J e solid) in
    (
      apply_optional J d (bare t u d),
      ground (arith, faithful.not_empty (marshal_fields e) bytes encoded, decoded, made),
      apply_optional-Restored J t u e d same,
    )
