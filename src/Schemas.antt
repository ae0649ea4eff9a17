-- ===== src/Schemas.antt =====
-- The management of schemas: the service (internal/application/service/schema_service.go), its
-- requests and responses (internal/application/dto/schema_dto.go) and the repository in memory
-- (internal/infrastructure/repository/schema_repository.go) that it runs on. The validator of data
-- is a parameter. Log lines are left out; a latency is recorded by its operation alone.
pub mod Registration
pub mod Names
mod Tests
use high_performance_event_s.Common.{
  ℕ, Bool, true, false, ◌&&◌, ◌||◌, String, List, [], ◌∷◌, ◌++◌, map, filter, Option, none, some,
  is_blank, str_eq, if◌then◌else◌,
}
use high_performance_event_s.Common.Int.{ℤ}
use high_performance_event_s.Common.Dict.{Dict, lookup, insert, delete}
use high_performance_event_s.Common.Outcome.{Outcome, ok, err}
use high_performance_event_s.Domain.Schema.{
  Schema, SchemaFormat, SchemaError, json_schema, avro, protobuf, format_name, new_schema,
}
use high_performance_event_s.Ingest.{Metric, error_recorded, latency_recorded}

-- `RegisterSchemaRequest`
pub record RegisterSchemaRequest : Type 0 where
  pub name : String
  pub version : String
  pub format : String
  pub definition : String

-- The switch of `ToEntity`
unfoldable pub format_of_name : String → SchemaFormat
format_of_name name =
    if str_eq name "Avro"
    then avro
    else if str_eq name "Protobuf"
    then protobuf
    else if str_eq name "JSONSchema"
    then json_schema
    else json_schema

-- `RegisterSchemaRequest.ToEntity`; `now` is the clock at `NewSchema`.
unfoldable pub to_schema : RegisterSchemaRequest → ℤ → String → Outcome SchemaError Schema
unfolding format_of_name
to_schema r now id = new_schema now id r.name r.version (format_of_name r.format) r.definition

-- `SchemaResponse`
pub record SchemaResponse : Type 0 where
  pub id : String
  pub name : String
  pub version : String
  pub format : String
  pub definition : String
  pub created_at : ℤ

-- `FromEntitySchema`
unfoldable pub from_entity_schema : Schema → SchemaResponse
from_entity_schema s = record {
  id = s.id;
  name = s.name;
  version = s.version;
  format = format_name s.format;
  definition = s.definition;
  created_at = s.created_at;
}

-- `InMemorySchemaRepository`
abbrev pub SchemaRepository : Type 0
SchemaRepository = Dict Schema

-- `Save`
unfoldable pub save : Schema → SchemaRepository → SchemaRepository
save s repo = insert s.id s repo

-- `schema.Name() == name && schema.Version() == version`
abbrev pub is_called : String → String → Schema → Bool
is_called name version s = str_eq s.name name && str_eq s.version version

-- `GetByNameVersion`: the first schema of that name and version in the order of the map
unfoldable pub get_by_name_version : String → String → SchemaRepository → Option Schema
get_by_name_version name version [] = none
get_by_name_version name version ((id, s) ∷ repo) =
    let rest = get_by_name_version name version repo in
    if is_called name version s then some s else rest

-- `InMemorySchemaRepository.List`
unfoldable pub list_named : String → SchemaRepository → List Schema
list_named name repo = filter (λ s. is_blank name || str_eq s.name name) (map (λ p. p.1) repo)

-- `InMemorySchemaRepository.Delete`
unfoldable pub delete_schema : String → SchemaRepository → SchemaRepository
delete_schema id repo = delete id repo

pub data SchemaServiceError : Type 0 where
  invalid_schema : SchemaError → SchemaServiceError
  already_exists : String → String → SchemaServiceError
  schema_not_found : SchemaServiceError

pub record Service : Type 0 where
  pub stored : SchemaRepository
  pub metrics : List Metric

-- What is returned, after metrics are recorded.
abbrev pub recording {ℓ} : {A : Type ℓ} → A → List Metric → Service → A × Service
recording a ms w = (a, record w { metrics = w.metrics ++ ms })

-- `Register`; `id` is the identifier made up for the schema.
unfoldable pub register :
    RegisterSchemaRequest → ℤ → String → Service → Outcome SchemaServiceError String × Service
register r now id w = elim (to_schema r now id) [
  | err e ↦ recording (err (invalid_schema e)) (error_recorded "Register" "entity_creation" ∷ []) w
  | ok s ↦ elim (get_by_name_version r.name r.version w.stored) [
    | some other ↦
        recording (err (already_exists r.name r.version))
          (error_recorded "Register" "duplicate" ∷ []) w
    | none ↦
        recording (ok id) (latency_recorded "register" ∷ []) (record w { stored = save s w.stored })
  ]
]

-- `Get`
unfoldable pub get_schema : String → Service → Outcome SchemaServiceError SchemaResponse × Service
unfolding from_entity_schema
get_schema id w = elim (lookup id w.stored) [
  | none ↦ recording (err schema_not_found) (error_recorded "Get" "retrieval" ∷ []) w
  | some s ↦ (ok (from_entity_schema s), w)
]

-- `List`
unfoldable pub list_schemas : String → Service → List SchemaResponse × Service
unfolding from_entity_schema list_named
list_schemas name w = (map from_entity_schema (list_named name w.stored), w)

-- `ValidateResponse`: the answer carries why the data is refused.
pub data Refusal : Type 0 where
  no_schema : Refusal
  failed : String → Refusal

pub record ValidateResponse : Type 0 where
  pub valid : Bool
  pub refusal : Option Refusal
  pub schema_id : String

-- `Validate`, which never returns an error itself; `validator` is what the validator answers.
unfoldable pub validate_data :
    (String → List ℕ → Option String) → String → List ℕ → Service → ValidateResponse × Service
validate_data validator id payload w = elim (lookup id w.stored) [
  | none ↦
      recording (record { valid = false; refusal = some no_schema; schema_id = id })
        (error_recorded "Validate" "schema_retrieval" ∷ []) w
  | some s ↦ elim (validator id payload) [
    | some e ↦
        recording (record { valid = false; refusal = some (failed e); schema_id = id })
          (latency_recorded "validate" ∷ error_recorded "Validate" "validation" ∷ []) w
    | none ↦
        recording (record { valid = true; refusal = none; schema_id = id })
          (latency_recorded "validate" ∷ []) w
  ]
]
