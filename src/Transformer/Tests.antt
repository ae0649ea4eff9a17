-- ===== src/Transformer/Tests.antt =====
-- Libraries whose programs are their scripts: the script `null` gives nil, any other an event.

use high_performance_event_s.Common.{
  ◌≡◌, refl, String, List, [], ◌∷◌, map, none, some, if◌then◌else◌, str_eq,
}
use high_performance_event_s.Common.Int.{pos}
use high_performance_event_s.Common.Dict.{lookup, insert, merge}
use high_performance_event_s.Common.Outcome.{ok, err}
use high_performance_event_s.Domain.Event.{
  Event, new_event, validate, copy, with_metadata, with_correlation, with_priority,
  with_partition_key, with_schema_url,
}
use high_performance_event_s.Transformer.{
  TransformedDto, Libraries, TransformError, Engine, new_transformation_engine, get_cache_stats,
  preserve, apply_fields, rebuild, build_transformed_event, event_to_map, first_result, apply_query,
  apply_program, apply_template, compile_cel_program, transform,
}
use high_performance_event_s.Transformer.Outcomes.{Call, answers, call_on, answers-new_engine}

abbrev paid_dto : TransformedDto
paid_dto = record {
  id = "a";
  source = "shop";
  event_type = "paid";
  subject = "";
  payload = 7 ∷ [];
  data_content_type = "text";
  schema_url = "";
  timestamp = "";
  metadata = [];
  correlation_id = "";
  causation_id = "";
  partition_key = "";
  priority = pos 3;
}

abbrev scripts : Libraries
scripts = record {
  Value = String;
  Query = String;
  CelEnv = String;
  Ast = String;
  Program = String;
  Template = String;
  parse_jq = λ s. if str_eq s "(" then err "unbalanced" else ok s;
  run_jq = λ q m. ok q ∷ [];
  new_env = ok "";
  compile = λ env s. ok s;
  new_program = λ env a. ok a;
  eval = λ p m. ok p;
  parse_template = λ s. ok s;
  execute = λ t e. ok (if str_eq t "null" then [] else 1 ∷ []);
  marshal_event = λ e. ok (1 ∷ []);
  marshal_value = λ v. ok (if str_eq v "null" then [] else 1 ∷ []);
  marshal_map = λ m. ok (1 ∷ []);
  unmarshal_map = λ bytes. elim bytes [ [] ↦ ok none | b ∷ rest ↦ ok (some []) ];
  unmarshal_dto = λ bytes. ok paid_dto;
  text = λ s. s;
  is_empty_text = λ v. str_eq v "";
  time_text = λ t. "then";
}

abbrev paid : Event
paid = record {
  id = "a";
  source = "shop";
  event_type = "paid";
  subject = "";
  payload = 7 ∷ [];
  data_content_type = "text";
  schema_url = "";
  timestamp = pos 40;
  metadata = [];
  correlation_id = "";
  causation_id = "";
  partition_key = "";
  priority = pos 3;
  created_at = pos 41;
}

abbrev by_jq : String → Call
by_jq script = record {
  now = pos 90;
  created = pos 91;
  event = some paid;
  transformation = some (record { kind = "jq"; script = script });
}

abbrev calls : List Call
calls = by_jq "." ∷ by_jq "(" ∷ by_jq "." ∷ []

program : Unit {0}
unfolding transform new_transformation_engine get_cache_stats preserve apply_fields rebuild
    build_transformed_event event_to_map first_result apply_query apply_program apply_template
    compile_cel_program new_event validate copy with_metadata with_correlation with_priority
    with_partition_key with_schema_url merge lookup insert
program = tt

abbrev engine : Engine scripts
engine = record { max_script_size = pos 10; cel_programs = []; jq_queries = []; templates = [] }

-- One query is kept, and not the script that is none.
kept :
    get_cache_stats scripts (call_on scripts (call_on scripts engine (by_jq ".")).1 (by_jq "(")).1
    ≡ (0, 1, 0)
unfolding program
kept = refl

-- A result that is nil panics.
nil_result : (call_on scripts engine (by_jq "null")).0 ≡ err TransformError.nil_map_panic
unfolding program
nil_result = refl

answers-new_engine_example :
    answers scripts calls (new_transformation_engine scripts (pos 10))
    ≡ map (λ c. (call_on scripts (new_transformation_engine scripts (pos 10)) c).0) calls
answers-new_engine_example = answers-new_engine scripts (pos 10) calls
