-- ===== src/Api/Tests.antt =====
-- Calls over gRPC.
use high_performance_event_s.Common.{
  All, eq_iff, arith, ◌≢◌, ℕ, ◌≡◌, ◌≢◌, refl, Bool, true, false, String, List, [], ◌∷◌, none, some,
  ◌==◌, if◌then◌else◌,
}
use high_performance_event_s.Common.Int.{pos}
use high_performance_event_s.Common.Dict.{Dict, lookup, insert}
use high_performance_event_s.Common.Outcome.{Outcome, ok, err}
use high_performance_event_s.Domain.Event.{Event, new_event, validate, priority_medium}
use high_performance_event_s.Domain.Filter.{Regexp, EventFilter}
use high_performance_event_s.Domain.Schema.{new_schema, validate as validate_schema_entity}
use high_performance_event_s.Requests.{Fresh, to_entity}
use high_performance_event_s.Ingest.{
  World, Environment, call, ingest_event_batch, validate_and_enrich_event, prepare_batch_events,
  store_batch_events, publish_batch_events,
}
use high_performance_event_s.Consumers.{Moment, ConsumerRepository, in_memory}
use high_performance_event_s.Consumers as C
use high_performance_event_s.Schemas as S
use high_performance_event_s.Health.{Check, simple_health_check}
use high_performance_event_s.Replay.{Settings, Surroundings}
use high_performance_event_s.Api.Messages.{Code, ProtoEvent, ProtoReplayRequest, event_proto_to_dto}
use high_performance_event_s.Api.Events.{
  IngestStream, closed, send_responses, process_batch, ingest_event_stream,
}
use high_performance_event_s.Api.Acknowledgements.{ids_from}
use high_performance_event_s.Api.Streaming.{ingest_event_stream-acknowledges}
use high_performance_event_s.Api.Gateway.{
  ProtoConsumer, handle_register_consumer, handle_get_health, get_status, status_unhealthy,
}
use high_performance_event_s.Api.SchemaCalls.{
  ProtoSchemaRequest, schema_proto_to_dto, handle_register_schema,
}
use high_performance_event_s.Api.Registrations.{
  handle_register_consumer-refused, SchemaCall, run_calls, handle_register_schema-once,
  get_health-unhealthy,
}

abbrev order : ProtoEvent
order = record {
  id = "";
  source = "shop";
  event_type = "order";
  subject = "";
  payload = 1 ∷ [];
  data_content_type = "text/plain";
  schema_url = "";
  timestamp = pos 0;
  metadata = [];
  correlation_id = "";
  causation_id = "";
  partition_key = "";
  priority = pos 0;
}

abbrev made : ℕ → ℕ → Fresh
made k i = record { id = if i == 0 then "first" else "next"; timestamp = pos k; created_at = pos i }

abbrev idle : World
idle = record { calls = []; metrics = [] }

-- Every call succeeds, and every send.
abbrev willing : Environment
willing calls c = none

abbrev sends_all : ℕ → Bool
sends_all n = false

abbrev opened : IngestStream
opened = record { world = idle; sent = []; batches = 0 }

program : Unit {0}
unfolding ingest_event_batch validate_and_enrich_event prepare_batch_events store_batch_events
    publish_batch_events call to_entity new_event validate event_proto_to_dto send_responses
    process_batch ingest_event_stream handle_register_schema schema_proto_to_dto S.register
    S.to_schema S.format_of_name new_schema validate_schema_entity S.get_by_name_version S.save
    lookup insert
program = tt

answered :
    (ingest_event_stream willing made
      (λ k. "corr")
      sends_all
      []
      (some order ∷ some order ∷ [])
      closed
      opened).0
    ≡ ok tt
unfolding program
answered = refl

ingest_event_stream-acknowledges_example :
    (closed ≡ closed)
    × ((ingest_event_stream willing made
          (λ k. "corr")
          sends_all
          []
          (some order ∷ some order ∷ [])
          closed
          opened).1.sent
        ≡ ids_from made 0 2)
ingest_event_stream-acknowledges_example =
    ingest_event_stream-acknowledges willing made (λ k. "corr") sends_all
      (some order ∷ some order ∷ []) closed idle answered

abbrev literal : Regexp
literal = record { Regex = String; compile = λ p. some p; match_string = λ r text. true }

abbrev audit : ProtoConsumer
audit = record { name = "audit"; routing_rules = [] }

abbrev now : Moment
now = record { id = "c1"; created = pos 1; activated = pos 2 }

unfoldable fresh : C.Service literal (in_memory literal)
unfolding in_memory
fresh = record { stored = []; metrics = [] }

handle_register_consumer-refused_example :
    ((code : Code) × ((handle_register_consumer literal
          (in_memory literal)
          (some (some audit))
          now
          fresh).0
        ≡ err code))
    × ((handle_register_consumer literal (in_memory literal) (some (some audit)) now fresh).1.stored
        ≡ fresh.stored)
handle_register_consumer-refused_example =
    handle_register_consumer-refused literal (in_memory literal) (some (some audit)) now fresh

abbrev empty : S.Service
empty = record { stored = []; metrics = [] }

abbrev first : ProtoSchemaRequest
first = record { name = "order"; format_text = "SCHEMA_FORMAT_AVRO"; definition = "{}" }

abbrev second : ProtoSchemaRequest
second = record first { definition = "{1}" }

schema_registered : (handle_register_schema (some first) (pos 1) "s1" empty).0 ≡ ok "s1"
unfolding program
schema_registered = refl

abbrev between : List SchemaCall
between =
    record { request = none; now = pos 2; id = "s2" }
    ∷ record { request = some (record first { name = "payment" }); now = pos 3; id = "s3" }
    ∷ []

other_ids : All (λ (c : SchemaCall). ◌≢◌ {A = String} c.id "s1") between
other_ids =
    (λ e. ground (arith, e, eq_iff "s2" "s1"), (λ e. ground (arith, e, eq_iff "s3" "s1"), tt))

handle_register_schema-once_example :
    let w = run_calls between (handle_register_schema (some first) (pos 1) "s1" empty).1 in
    ((handle_register_schema (some second) (pos 4) "s4" w).0 ≢ ok "s4")
    × ((handle_register_schema (some second) (pos 4) "s4" w).1.stored ≡ w.stored)
handle_register_schema-once_example =
    handle_register_schema-once first second (pos 1) (pos 4) "s1" "s4" "s1" "s4" empty between refl
      schema_registered other_ids

abbrev checks : Dict (Check ℕ)
checks = ("readiness", simple_health_check "readiness") ∷ []

get_health-unhealthy_example :
    (message : String) × (handle_get_health (get_status (λ n. "1") (λ k. k) (pos 3) checks)
      ≡ ok (status_unhealthy, message))
get_health-unhealthy_example = get_health-unhealthy (λ n. "1") (λ k. k) (pos 3) checks

abbrev paid : Event
paid = record {
  id = "a";
  source = "shop";
  event_type = "paid";
  subject = "";
  payload = 7 ∷ [];
  data_content_type = "text";
  schema_url = "";
  timestamp = pos 40;
  metadata = [];
  correlation_id = "";
  causation_id = "";
  partition_key = "";
  priority = priority_medium;
  created_at = pos 41;
}

abbrev settings : Settings
settings = record { batch_size = pos 1; rate_limit_ms = pos 10; channel_buffer_size = pos 100 }

abbrev calm : Surroundings
calm = record { done_before = λ i. false; done_sending = λ i. false }

abbrev hour : ProtoReplayRequest
hour = record { proto_filter = none; start_time = none; end_time = some (pos 3_600) }

abbrev found : EventFilter literal → Outcome String (List Event)
found f = ok (paid ∷ paid ∷ [])
