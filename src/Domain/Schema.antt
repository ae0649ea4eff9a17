-- ===== src/Domain/Schema.antt =====
-- The schema entity (internal/domain/entity/schema.go).
use high_performance_event_s.Common.{ℕ, String, List, length, ◌==◌, is_blank}
use high_performance_event_s.Common.Int.{ℤ}
use high_performance_event_s.Common.Outcome.{Outcome, ok, ◌>>◌, reject_if}

-- `SchemaFormat`: a request only ever produces the three constants.
pub data SchemaFormat : Type 0 where
  json_schema avro protobuf : SchemaFormat

-- `SchemaFormat.String`
unfoldable pub format_name : SchemaFormat → String
format_name avro = "Avro"
format_name protobuf = "Protobuf"
format_name json_schema = "JSONSchema"

pub record Schema : Type 0 where
  pub id : String
  pub name : String
  pub version : String
  pub format : SchemaFormat
  pub definition : String
  pub created_at : ℤ

pub data SchemaError : Type 0 where
  empty_id empty_name empty_version empty_definition empty_data : SchemaError

-- `validate`
unfoldable pub validate : Schema → Outcome SchemaError (Unit {0})
validate s = do
  reject_if (is_blank s.id) empty_id
  reject_if (is_blank s.name) empty_name
  reject_if (is_blank s.version) empty_version
  reject_if (is_blank s.definition) empty_definition
  ok tt

-- `NewSchema`; `now` is its reading of the clock.
unfoldable pub new_schema :
    ℤ → String → String → String → SchemaFormat → String → Outcome SchemaError Schema
unfolding validate
new_schema now id name version format definition =
    let s : Schema = record {
      id = id;
      name = name;
      version = version;
      format = format;
      definition = definition;
      created_at = now;
    } in
    do validate s; ok s

-- `ValidateEvent`, a placeholder
unfoldable pub validate_event : Schema → List ℕ → Outcome SchemaError (Unit {0})
validate_event s payload = do reject_if (length payload == 0) empty_data; ok tt
