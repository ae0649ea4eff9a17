-- ===== src/Ingest/Tests.antt =====
-- The ingestion of concrete requests.
use high_performance_event_s.Common.{ℕ, ◌≡◌, refl, List, [], ◌∷◌, Option, none, some}
use high_performance_event_s.Common.Int.{pos}
use high_performance_event_s.Common.Outcome.{ok, err}
use high_performance_event_s.Domain.Event.{new_event, validate, empty_source}
use high_performance_event_s.Requests.{IngestEventRequest, Fresh, to_entity}
use high_performance_event_s.Ingest.{
  World, Environment, call, ingest_event, ingest_event_batch, validate_and_enrich_event,
  prepare_batch_events, store_batch_events, publish_batch_events, at_index, store_failed, nil_panic,
  invalid_request,
}
use high_performance_event_s.Ingest.Single.{Course, ingest_event-Course}

abbrev order : IngestEventRequest
order = record {
  source = "shop";
  event_type = "order";
  subject = "";
  payload = 1 ∷ [];
  data_content_type = "text/plain";
  schema_url = "";
  metadata = [];
  correlation_id = "";
  causation_id = "";
  partition_key = "";
  priority = pos 0;
}

abbrev anonymous : IngestEventRequest
anonymous = record order { source = "" }

abbrev made : ℕ → Fresh
made i = record { id = "id"; timestamp = pos i; created_at = pos i }

abbrev idle : World
idle = record { calls = []; metrics = [] }

-- Every call succeeds, or none after the second.
abbrev willing : Environment
willing calls c = none

abbrev tired : Environment
tired (a ∷ b ∷ rest) c = some "busy"
tired _ c = none

program : Unit {0}
unfolding ingest_event ingest_event_batch validate_and_enrich_event prepare_batch_events
    store_batch_events publish_batch_events call to_entity new_event validate
program = tt

accepted : (ingest_event willing order (made 0) "corr" idle).0 ≡ ok "id"
unfolding program
accepted = refl

refused :
    (ingest_event willing anonymous (made 0) "corr" idle).0 ≡ err (invalid_request empty_source)
unfolding program
refused = refl

third_not_stored :
    (ingest_event_batch tired (some order ∷ some order ∷ some order ∷ []) made "corr" idle).0
    ≡ err (at_index 2 (store_failed "busy"))
unfolding program
third_not_stored = refl

-- A nil request in a batch is dereferenced.
nil_request :
    (ingest_event_batch willing (some order ∷ none ∷ []) made "corr" idle).0 ≡ err nil_panic
unfolding program
nil_request = refl

ingest_event-Course_example :
    Course willing order
      (made 0)
      "corr"
      idle
      (ingest_event willing order (made 0) "corr" idle).0
      (ingest_event willing order (made 0) "corr" idle).1
ingest_event-Course_example = ingest_event-Course willing order (made 0) "corr" idle

abbrev three : List (Option IngestEventRequest)
three = some order ∷ some order ∷ some order ∷ []
