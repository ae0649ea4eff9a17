-- ===== src/Consumers.antt =====
-- The management of consumers: the service (internal/application/service/consumer_service.go), its
-- requests and responses (internal/application/dto/consumer_dto.go), its port and the repository in
-- memory that fills it (internal/infrastructure/repository/consumer_repository.go). A stored
-- consumer is shared by pointer; nothing changes one after it is saved, so it is a value here. Log
-- lines, among them the domain events, are left out; a latency is recorded by its operation alone.
pub mod Laws
pub mod Acceptance
pub mod Registration
mod Tests
use high_performance_event_s.Common.{
  Bool, true, false, ◌||◌, String, List, [], ◌∷◌, ◌++◌, map, filter, Option, none, some, is_blank,
  str_eq,
}
use high_performance_event_s.Common.Int.{ℤ}
use high_performance_event_s.Common.Dict.{Dict, lookup, insert, delete}
use high_performance_event_s.Common.Outcome.{Outcome, ok, err, ◌>>=◌, wrap}
use high_performance_event_s.Domain.Event.{priority_unspecified}
use high_performance_event_s.Domain.Filter.{Regexp, EventFilter, FilterError, new_event_filter}
use high_performance_event_s.Domain.Transformation.{
  Transformation, TransformationError, TransformationConfigDto, type_none, new_transformation,
  to_transformation,
}
use high_performance_event_s.Domain.Consumer.{
  Consumer, ConsumerError, new_consumer, activate, status_name,
}
use high_performance_event_s.Requests.{EventFilterDto, to_event_filter}
use high_performance_event_s.Ingest.{Metric, error_recorded, latency_recorded}

-- `RegisterConsumerRequest`
pub record RegisterConsumerRequest : Type 0 where
  pub name : String
  pub group_id : String
  pub filter_config : Option EventFilterDto
  pub transform_config : Option TransformationConfigDto

-- `ConsumerResponse`
pub record ConsumerResponse : Type 0 where
  pub id : String
  pub name : String
  pub group_id : String
  pub status : String
  pub created_at : ℤ
  pub updated_at : ℤ

-- What one registration takes from outside: the identifier, and two readings of the clock.
pub record Moment : Type 0 where
  pub id : String
  pub created : ℤ
  pub activated : ℤ

-- The error that a call returns around the error of its callee.
pub data ConsumerServiceError : Type 0 where
  invalid_filter : FilterError → ConsumerServiceError
  invalid_default_filter : FilterError → ConsumerServiceError
  invalid_config : TransformationError → ConsumerServiceError
  invalid_default_config : TransformationError → ConsumerServiceError
  invalid_consumer : ConsumerError → ConsumerServiceError
  not_activated : ConsumerError → ConsumerServiceError
  not_saved : String → ConsumerServiceError
  not_retrieved : String → ConsumerServiceError
  not_deleted : String → ConsumerServiceError
  not_listed : String → ConsumerServiceError

-- The error that `Register` records with the error it returns; the defaults record none.
unfoldable pub register_metric : ConsumerServiceError → List Metric
register_metric (invalid_filter e) = error_recorded "Register" "filter_conversion" ∷ []
register_metric (invalid_default_filter e) = []
register_metric (invalid_config e) = error_recorded "Register" "transformation_conversion" ∷ []
register_metric (invalid_default_config e) = []
register_metric (invalid_consumer e) = error_recorded "Register" "entity_creation" ∷ []
register_metric (not_activated e) = error_recorded "Register" "activation" ∷ []
register_metric _ = error_recorded "Register" "storage" ∷ []

module _ (R : Regexp) where
  -- The port `ConsumerRepository`: a text is an error.
  pub record ConsumerRepository : Type 1 where
    pub State : Type 0
    pub save : Consumer R → State → Option String × State
    pub get : String → State → Outcome String (Consumer R)
    pub list_group : String → State → Outcome String (List (Consumer R))
    pub delete_id : String → State → Option String × State

  -- `InMemoryConsumerRepository`
  unfoldable pub in_memory : ConsumerRepository
  in_memory = record {
    State = Dict (Consumer R);
    save = λ c s. (none, insert c.id c s);
    get = λ id s. elim (lookup id s) [ some c ↦ ok c | none ↦ err "consumer not found" ];
    list_group =
        λ group s. ok (filter (λ c. is_blank group || str_eq c.group_id group) (map (λ p. p.1) s));
    delete_id = λ id s. (none, delete id s);
  }

  -- `FromEntityConsumer`
  unfoldable pub from_entity_consumer : Consumer R → ConsumerResponse
  from_entity_consumer c = record {
    id = c.id;
    name = c.name;
    group_id = c.group_id;
    status = status_name c.status;
    created_at = c.created_at;
    updated_at = c.updated_at;
  }

  -- The filter of a registration
  unfoldable pub requested_filter :
      Option EventFilterDto → Outcome ConsumerServiceError (EventFilter R)
  requested_filter (some f) = wrap invalid_filter (to_event_filter R f)
  requested_filter none =
      wrap invalid_default_filter (new_event_filter R "" "" "" [] priority_unspecified)

  -- The transformation of a registration
  unfoldable pub requested_transformation :
      Option TransformationConfigDto → Outcome ConsumerServiceError Transformation
  requested_transformation (some t) = wrap invalid_config (to_transformation t)
  requested_transformation none = wrap invalid_default_config (new_transformation type_none "")

  -- `Register` up to the activation of the consumer
  unfoldable pub build_consumer :
      RegisterConsumerRequest → Moment → Outcome ConsumerServiceError (Consumer R)
  build_consumer r m = do
    event_filter ← requested_filter r.filter_config
    transformation ← requested_transformation r.transform_config
    consumer ←
        wrap invalid_consumer
          (new_consumer R m.created m.id r.name r.group_id event_filter transformation)
    wrap not_activated (activate R m.activated consumer)

  module _ (repo : ConsumerRepository) where
    pub record Service : Type 0 where
      pub stored : repo.State
      pub metrics : List Metric

    -- What is returned, after a metric is recorded.
    abbrev pub recording {ℓ} : {A : Type ℓ} → A → List Metric → Service → A × Service
    recording a ms w = (a, record w { metrics = w.metrics ++ ms })

    -- `Register`
    unfoldable pub register :
        RegisterConsumerRequest → Moment → Service → Outcome ConsumerServiceError String × Service
    unfolding build_consumer register_metric
    register r m w = elim (build_consumer r m) [
      | err e ↦ recording (err e) (register_metric e) w
      | ok c ↦
          (let (answer, stored) = repo.save c w.stored in
            let saved = record w { stored = stored } in
            elim answer [
              | some e ↦ recording (err (not_saved e)) (register_metric (not_saved e)) saved
              | none ↦ recording (ok m.id) (latency_recorded "register" ∷ []) saved
            ])
    ]

    -- `Deregister`
    unfoldable pub deregister : String → Service → Outcome ConsumerServiceError (Unit {0}) × Service
    deregister id w = elim (repo.get id w.stored) [
      | err e ↦ recording (err (not_retrieved e)) (error_recorded "Deregister" "retrieval" ∷ []) w
      | ok c ↦
          (let (answer, stored) = repo.delete_id id w.stored in
            let deleted = record w { stored = stored } in
            elim answer [
              | some e ↦
                  recording (err (not_deleted e)) (error_recorded "Deregister" "deletion" ∷ [])
                    deleted
              | none ↦ recording (ok tt) (latency_recorded "deregister" ∷ []) deleted
            ])
    ]

    -- `Get`
    unfoldable pub get_consumer :
        String → Service → Outcome ConsumerServiceError ConsumerResponse × Service
    unfolding from_entity_consumer
    get_consumer id w = elim (repo.get id w.stored) [
      | err e ↦ recording (err (not_retrieved e)) (error_recorded "Get" "retrieval" ∷ []) w
      | ok c ↦ (ok (from_entity_consumer c), w)
    ]

    -- `List`
    unfoldable pub list_consumers :
        String → Service → Outcome ConsumerServiceError (List ConsumerResponse) × Service
    unfolding from_entity_consumer
    list_consumers group w = elim (repo.list_group group w.stored) [
      | err e ↦ recording (err (not_listed e)) (error_recorded "List" "retrieval" ∷ []) w
      | ok cs ↦ (ok (map from_entity_consumer cs), w)
    ]
