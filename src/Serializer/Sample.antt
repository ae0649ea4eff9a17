-- ===== src/Serializer/Sample.antt =====
-- A codec of one event, for the tests: encoding knows that event alone.
use high_performance_event_s.Common.{
  ℕ, ◌≡◌, refl, ap, sym, Bool, true, false, ◌&&◌, String, List, [], ◌∷◌, some, ◌==◌, arith,
  if◌then◌else◌, str_eq, eq_iff,
}
use high_performance_event_s.Common.Int.{ℤ, pos, eqb_ℤ}
use high_performance_event_s.Common.Dict.{Dict, lookup}
use high_performance_event_s.Common.Outcome.{ok, err}
use high_performance_event_s.Domain.Event.{Event, validate}
use high_performance_event_s.Serializer.{
  Json, EventJson, EventDeserializationDto, marshal_fields, encode_into, serialize,
}
use high_performance_event_s.Serializer.Restoring.{SameFields, Faithful}

abbrev pub paid : EventDeserializationDto
paid = record {
  id = "a";
  source = "shop";
  event_type = "paid";
  subject = "";
  payload = 7 ∷ [];
  data_content_type = "text";
  schema_url = "";
  timestamp = "t";
  metadata = [];
  correlation_id = "c";
  causation_id = "";
  partition_key = "";
  priority = pos 3;
}

abbrev one_byte : List ℕ → Bool
one_byte [] = false
one_byte (b ∷ []) = b == 7
one_byte (b ∷ c ∷ rest) = false

abbrev is_empty : Dict String → Bool
is_empty [] = true
is_empty (p ∷ m) = false

abbrev is_paid : EventJson ℤ → Bool
is_paid j =
    ((str_eq j.id "a" && str_eq j.source "shop")
      && (str_eq j.event_type "paid" && str_eq j.subject ""))
    && (((one_byte j.payload && str_eq j.data_content_type "text")
          && (str_eq j.schema_url "" && is_empty j.metadata))
        && ((str_eq j.correlation_id "c" && str_eq j.causation_id "")
            && (str_eq j.partition_key "" && eqb_ℤ j.priority (pos 3))))

one_byte-eq : (l : List ℕ) → one_byte l ≡ true → l ≡ 7 ∷ []
one_byte-eq [] h = absurd (ground (arith, h))
one_byte-eq (b ∷ []) h = ground (arith, h)
one_byte-eq (b ∷ c ∷ rest) h = absurd (ground (arith, h))

is_empty-eq : (m : Dict String) → is_empty m ≡ true → m ≡ []
is_empty-eq [] h = refl
is_empty-eq (p ∷ m) h = absurd (ground (arith, h))

abbrev pub codec : Json
codec = record {
  encode = λ j. if is_paid j then ok (123 ∷ []) else err "unknown";
  decode = λ bytes. ok paid;
  compact = λ l. l;
}

encoded-is_paid : (j : EventJson ℤ) (bytes : List ℕ) → codec.encode j ≡ ok bytes → is_paid j ≡ true
encoded-is_paid j bytes h = ground (arith, h)

paid-SameFields : (j : EventJson ℤ) → is_paid j ≡ true → SameFields codec.compact j paid
paid-SameFields j h = record {
  id = ground (arith, h, eq_iff j.id "a");
  source = ground (arith, h, eq_iff j.source "shop");
  event_type = ground (arith, h, eq_iff j.event_type "paid");
  subject = ground (arith, h, eq_iff j.subject "");
  payload = ground (arith, h, one_byte-eq j.payload);
  data_content_type = ground (arith, h, eq_iff j.data_content_type "text");
  schema_url = ground (arith, h, eq_iff j.schema_url "");
  metadata_map = tt;
  metadata = λ k. ap (lookup k) (sym (is_empty-eq j.metadata (ground (arith, h))));
  correlation_id = ground (arith, h, eq_iff j.correlation_id "c");
  causation_id = ground (arith, h, eq_iff j.causation_id "");
  partition_key = ground (arith, h, eq_iff j.partition_key "");
  priority = ground (arith, h);
}

pub codec-Faithful : Faithful codec
codec-Faithful = record {
  not_empty = λ j bytes h. ground (arith, h);
  decodes = λ j bytes h. (paid, refl, paid-SameFields j (encoded-is_paid j bytes h));
  compacts = λ j bytes h l. l;
}

abbrev pub paid_event : Event
paid_event = record {
  id = "a";
  source = "shop";
  event_type = "paid";
  subject = "";
  payload = 7 ∷ [];
  data_content_type = "text";
  schema_url = "";
  timestamp = pos 40;
  metadata = [];
  correlation_id = "c";
  causation_id = "";
  partition_key = "";
  priority = pos 3;
  created_at = pos 41;
}

pub paid_event_valid : validate paid_event ≡ ok tt
unfolding validate
paid_event_valid = refl

pub paid_event_serialized : (serialize codec [] (some paid_event)).0 ≡ ok (123 ∷ [])
unfolding serialize encode_into marshal_fields
paid_event_serialized = refl
