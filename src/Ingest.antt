-- ===== src/Ingest.antt =====
-- The ingestion of events (internal/application/service/event_service.go) against its ports
-- (internal/application/port/output.go): the validator of schemas, the store and the publisher are
-- whatever answers the calls, and an answer may depend on every call before. A call answers nil or
-- an error. Log lines are left out; a latency is recorded by its operation alone.
pub mod Effects
pub mod Single
pub mod Batch
mod Tests
use Prim.Native.String.{◌++◌ as str_append}
use high_performance_event_s.Common.{
  ℕ, zero, suc, ◌+◌, Bool, true, false, not, String, List, [], ◌∷◌, ◌++◌, Option, none, some,
  length, if◌then◌else◌, is_blank,
}
use high_performance_event_s.Common.Outcome.{Outcome, ok, err}
use high_performance_event_s.Domain.Event.{Event, EventError, with_correlation}
use high_performance_event_s.Requests.{IngestEventRequest, Fresh, to_entity}

-- A call of a port.
pub data PortCall : Type 0 where
  validate_data : String → List ℕ → PortCall
  store_event : Event → PortCall
  publish_event : Event → String → PortCall

-- What is handed to the collector of metrics.
pub data Metric : Type 0 where
  error_recorded : String → String → Metric
  latency_recorded : String → Metric
  ingestion_recorded : ℕ → Metric

pub record World : Type 0 where
  pub calls : List PortCall
  pub metrics : List Metric

-- The answer to a call, from the calls before it: `some` is an error.
abbrev pub Environment : Type 0
Environment = List PortCall → PortCall → Option String

pub data ServiceError : Type 0 where
  invalid_request : EventError → ServiceError
  schema_failed : String → ServiceError
  store_failed : String → ServiceError
  publish_failed : String → ServiceError
  at_index : ℕ → ServiceError → ServiceError
  -- a panic: a nil request is dereferenced
  nil_panic : ServiceError

abbrev pub M {ℓ} : Type ℓ → Type ℓ
M A = World → Outcome ServiceError A × World

infixl 5 ◌>>=◌ ◌>>◌
abbrev pub ◌>>=◌ {ℓ κ} : {A : Type ℓ} {B : Type κ} → M A → (A → M B) → M B
◌>>=◌ m f w = elim (m w).0 [ ok a ↦ f a (m w).1 | err e ↦ (err e, (m w).1) ]

abbrev pub ◌>>◌ {ℓ} : {B : Type ℓ} → M (Unit {0}) → M B → M B
m >> k = m >>= λ _. k

abbrev pub give {ℓ} : {A : Type ℓ} → A → M A
give a w = (ok a, w)

abbrev pub fail {ℓ} : {A : Type ℓ} → ServiceError → M A
fail e w = (err e, w)

-- A metric is recorded.
abbrev pub record_metric : Metric → M (Unit {0})
record_metric m w = (ok tt, record w { metrics = w.metrics ++ m ∷ [] })

-- `fmt.Sprintf("events.%s", eventType)`
abbrev pub topic_of : String → String
topic_of event_type = str_append "events." event_type

-- `if request.CorrelationID == "" { generateID() }`
abbrev pub correlation_of : String → String → String
correlation_of given generated = if is_blank given then generated else given

module _ (env : Environment) where
  -- A port is called; the result is its answer.
  unfoldable pub call : PortCall → M (Option String)
  call c w = (ok (env w.calls c), record w { calls = w.calls ++ c ∷ [] })

  -- `validateSchema`
  unfoldable pub validate_schema : String → List ℕ → M (Unit {0})
  validate_schema url payload = do
    answer ← call (validate_data url payload)
    record_metric (latency_recorded "schema_validation")
    elim answer [ some e ↦ fail (schema_failed e) | none ↦ give tt ]

  -- The check of the data against the schema of the request, if it names one.
  unfoldable pub check_schema : IngestEventRequest → M (Unit {0})
  unfolding validate_schema
  check_schema r w =
      if is_blank r.schema_url
      then (ok tt, w)
      else (let (result, w') = validate_schema r.schema_url r.payload w in
          elim result [
            | ok u ↦ (ok u, w')
            | err e ↦
                (do record_metric (error_recorded "IngestEvent" "schema_validation"); fail e) w'
          ])

  -- `validateAndEnrichEvent`
  unfoldable pub validate_and_enrich_event : IngestEventRequest → Fresh → String → M Event
  unfolding check_schema
  validate_and_enrich_event r f correlation_id = elim (to_entity r f) [
    | err e ↦ do record_metric (error_recorded "IngestEvent" "validation"); fail (invalid_request e)
    | ok event ↦ do
      let enriched = with_correlation correlation_id r.causation_id event
      check_schema r
      give enriched
  ]

  -- `storeAndPublish`
  unfoldable pub store_and_publish : Event → String → M Event
  store_and_publish event event_type = do
    stored ← call (store_event event)
    record_metric (latency_recorded "store")
    elim stored [
      | some e ↦ do record_metric (error_recorded "IngestEvent" "storage"); fail (store_failed e)
      | none ↦ do
        published ← call (publish_event event (topic_of event_type))
        record_metric (latency_recorded "publish")
        elim published [
          | some e ↦ do
            record_metric (error_recorded "IngestEvent" "publishing")
            fail (publish_failed e)
          | none ↦ give event
        ]
    ]

  -- `IngestEvent`; `generated` is the identifier made up where the request has no correlation.
  unfoldable pub ingest_event : IngestEventRequest → Fresh → String → M String
  unfolding store_and_publish
  ingest_event r f generated = do
    event ← validate_and_enrich_event r f (correlation_of r.correlation_id generated)
    stored ← store_and_publish event r.event_type
    record_metric (ingestion_recorded 1)
    give f.id

  -- On an error of `m` a further one is recorded, and the error returned is `g` of it.
  abbrev pub on_error {ℓ} : {A : Type ℓ} → M A → Metric → (ServiceError → ServiceError) → M A
  on_error m metric g w = elim (m w).0 [
    | ok a ↦ (ok a, (m w).1)
    | err e ↦ (do record_metric metric; fail (g e)) (m w).1
  ]

  -- The loop of `prepareBatchEvents` from index `i` on, with `gen i` for what the i-th conversion
  -- takes from outside; the identifiers are those of the events.
  unfoldable pub prepare_batch_events :
      (ℕ → Fresh) → String → ℕ → List (Option IngestEventRequest) → M (List Event × List String)
  prepare_batch_events gen correlation_id i [] = give ([], [])
  prepare_batch_events gen correlation_id i (none ∷ rs) = fail nil_panic
  prepare_batch_events gen correlation_id i (some r ∷ rs) = do
    event ←
        on_error (validate_and_enrich_event r (gen i) correlation_id)
          (error_recorded "IngestEventBatch" "validation") (at_index i)
    (events, ids) ← prepare_batch_events gen correlation_id (suc i) rs
    give (event ∷ events, (gen i).id ∷ ids)

  -- The loop of `storeBatchEvents` from index `i` on.
  unfoldable pub store_batch_events : ℕ → List Event → M (Unit {0})
  store_batch_events i [] = record_metric (latency_recorded "batch_store")
  store_batch_events i (event ∷ events) = do
    stored ← call (store_event event)
    elim stored [
      | some e ↦ do
        record_metric (latency_recorded "batch_store")
        record_metric (error_recorded "IngestEventBatch" "storage")
        fail (at_index i (store_failed e))
      | none ↦ store_batch_events (suc i) events
    ]

  -- The loop of `publishBatchEvents` from index `i` on.
  unfoldable pub publish_batch_events : ℕ → List Event → M (Unit {0})
  publish_batch_events i [] = record_metric (latency_recorded "batch_publish")
  publish_batch_events i (event ∷ events) = do
    published ← call (publish_event event (topic_of event.event_type))
    elim published [
      | some e ↦ do
        record_metric (latency_recorded "batch_publish")
        record_metric (error_recorded "IngestEventBatch" "publishing")
        fail (at_index i (publish_failed e))
      | none ↦ publish_batch_events (suc i) events
    ]

  -- `IngestEventBatch`
  unfoldable pub ingest_event_batch :
      List (Option IngestEventRequest) → (ℕ → Fresh) → String → M (List String)
  ingest_event_batch [] gen generated = give []
  ingest_event_batch (none ∷ rs) gen generated = fail nil_panic
  ingest_event_batch (some r ∷ rs) gen generated = do
    (events, ids) ←
        prepare_batch_events gen (correlation_of r.correlation_id generated) 0 (some r ∷ rs)
    store_batch_events 0 events
    publish_batch_events 0 events
    record_metric (ingestion_recorded (length events))
    give ids
