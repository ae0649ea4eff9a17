-- ===== src/Api/SchemaCalls.antt =====
-- The handlers of schemas (internal/api/grpc/schema_handler.go) with their conversion
-- (internal/api/grpc/converter.go). Log lines are left out.
use high_performance_event_s.Common.{
  ℕ, Bool, ◌||◌, String, List, [], map, Option, none, some, length, if◌then◌else◌, is_blank, ◌==◌,
}
use high_performance_event_s.Common.Int.{ℤ, pos}
use high_performance_event_s.Common.Outcome.{Outcome, ok, err}
use high_performance_event_s.Schemas.{
  RegisterSchemaRequest, SchemaResponse, Service, Refusal, register, get_schema, list_schemas,
  validate_data,
}
use high_performance_event_s.Api.Messages.{Code, invalid_argument, internal, not_found}
use high_performance_event_s.Api.Gateway.{int_32}

-- `schemav1.RegisterSchemaRequest`; the format is the name that its generated `String` gives.
pub record ProtoSchemaRequest : Type 0 where
  pub name : String
  pub format_text : String
  pub definition : String

-- `schemav1.SchemaFormat`
pub data ProtoFormat : Type 0 where
  format_unspecified format_json_schema format_avro format_protobuf : ProtoFormat

-- `schemav1.Schema`
pub record ProtoSchema : Type 0 where
  pub id : String
  pub name : String
  pub version : ℤ
  pub format : ProtoFormat
  pub definition : String

-- `schemaProtoToDTO`, of a request that is not nil
unfoldable pub schema_proto_to_dto : ProtoSchemaRequest → RegisterSchemaRequest
schema_proto_to_dto r = record {
  name = r.name;
  version = "1.0";
  format = r.format_text;
  definition = r.definition;
}

-- `schemaDTOToProto`
unfoldable pub schema_dto_to_proto : SchemaResponse → ProtoSchema
schema_dto_to_proto s = record {
  id = s.id;
  name = s.name;
  version = pos 1;
  format = format_json_schema;
  definition = s.definition;
}

-- `RegisterSchema`
unfoldable pub handle_register_schema :
    Option ProtoSchemaRequest → ℤ → String → Service → Outcome Code String × Service
unfolding schema_proto_to_dto
handle_register_schema none now id w = (err invalid_argument, w)
handle_register_schema (some r) now id w =
    if is_blank r.name || is_blank r.definition
    then (err invalid_argument, w)
    else (let (result, w') = register (schema_proto_to_dto r) now id w in
        elim result [ err e ↦ (err internal, w') | ok given ↦ (ok given, w') ])

-- What identifies the schema in a request of `GetSchema`
pub data SchemaIdentifier : Type 0 where
  by_id : String → SchemaIdentifier
  other_identifier : SchemaIdentifier

-- `GetSchema`
unfoldable pub handle_get_schema :
    Option SchemaIdentifier → Service → Outcome Code ProtoSchema × Service
unfolding schema_dto_to_proto
handle_get_schema none w = (err invalid_argument, w)
handle_get_schema (some other_identifier) w = (err invalid_argument, w)
handle_get_schema (some (by_id id)) w =
    if is_blank id
    then (err invalid_argument, w)
    else (let (result, w') = get_schema id w in
        elim result [ err e ↦ (err not_found, w') | ok s ↦ (ok (schema_dto_to_proto s), w') ])

-- `ValidateEvent`, of an identifier and the data of an event that may be nil; the answer is whether it is
-- valid and why not.
unfoldable pub handle_validate_event :
    (String → List ℕ → Option String)
    → Option (String × Option (List ℕ))
    → Service
    → Outcome Code (Bool × Option Refusal) × Service
handle_validate_event validator none w = (err invalid_argument, w)
handle_validate_event validator (some (id, event)) w =
    let payload : List ℕ = elim event [ none ↦ [] | some bytes ↦ bytes ] in
    if is_blank id || (length payload == 0)
    then (err invalid_argument, w)
    else (let (answer, w') = validate_data validator id payload w in
        (ok (answer.valid, answer.refusal), w'))

-- `ListSchemas`, of a namespace
unfoldable pub handle_list_schemas :
    Option String → Service → Outcome Code (List ProtoSchema × ℤ) × Service
unfolding schema_dto_to_proto
handle_list_schemas none w = (err invalid_argument, w)
handle_list_schemas (some namespace) w =
    let (responses, w') = list_schemas namespace w in
    let schemas = map schema_dto_to_proto responses in (ok (schemas, int_32 (length schemas)), w')
