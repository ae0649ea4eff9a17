-- ===== src/Schemas/Tests.antt =====
-- Schemas registered in memory.
use high_performance_event_s.Common.{◌≡◌, refl, ℕ, String, List, [], Option, none, arith}
use high_performance_event_s.Common.Int.{pos}
use high_performance_event_s.Common.Dict.{lookup}
use high_performance_event_s.Common.Outcome.{ok}
use high_performance_event_s.Domain.Schema.{new_schema, validate, format_name}
use high_performance_event_s.Schemas.{
  RegisterSchemaRequest, Service, register, to_schema, format_of_name, get_by_name_version, save,
}
use high_performance_event_s.Schemas.Names.{UniqueNames, register-UniqueNames}

abbrev request : RegisterSchemaRequest
request = record { name = "order"; version = "1.0"; format = "AVRO"; definition = "{}" }

abbrev fresh : Service
fresh = record { stored = []; metrics = [] }

program : Unit {0}
unfolding register to_schema new_schema validate format_of_name get_by_name_version save format_name
program = tt

registered : (register request (pos 1) "s1" fresh).0 ≡ ok "s1"
unfolding program
registered = refl

abbrev after : Service
after = (register request (pos 1) "s1" fresh).1

-- A format in capitals is not known.
unknown_format : format_name (format_of_name "AVRO") ≡ "JSONSchema"
unfolding program
unknown_format = refl

none_unique : UniqueNames []
unfolding lookup
none_unique i j a b la lb n v = ground (arith, la)

register-UniqueNames_example : UniqueNames after.stored
register-UniqueNames_example = register-UniqueNames request (pos 1) "s1" fresh none_unique

abbrev lenient : String → List ℕ → Option String
lenient id payload = none
