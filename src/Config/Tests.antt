-- ===== src/Config/Tests.antt =====
-- Configurations from an empty environment, and from one that overflows.
use high_performance_event_s.Common.{◌≡◌, refl, ◌↔◌, [], ◌∷◌, none, some, if◌then◌else◌, str_eq}
use high_performance_event_s.Common.Int.{pos}
use high_performance_event_s.Common.Outcome.{ok}
use high_performance_event_s.Config.{
  Environment, Parsers, get_string_env, get_int_env, get_bool_env, get_duration_env,
  get_string_slice_env, to_word, load, validate, validate_server, validate_kafka, validate_auth,
  validate_rate_limit, validate_logging,
}
use high_performance_event_s.Config.Validity.{IsValid, validate_iff}

-- Parsers that read one number.
abbrev parsers : Parsers
parsers = record {
  atoi = λ s. if str_eq s "4294967299" then some (pos 4_294_967_299) else none;
  parse_duration = λ s. none;
  split_commas = λ s. s ∷ [];
  trim_space = λ s. s;
}

abbrev nothing_set : Environment
nothing_set = λ key. none

-- More partitions than 32 bits hold, and a port that is no number.
abbrev odd : Environment
odd = λ key.
    if str_eq key "KAFKA_NUM_PARTITIONS"
    then some "4294967299"
    else (if str_eq key "GRPC_PORT" then some "x" else none)

program : Unit {0}
unfolding get_string_env get_int_env get_bool_env get_duration_env get_string_slice_env to_word load
    validate validate_server validate_kafka validate_auth validate_rate_limit validate_logging
program = tt

defaults_valid : validate (load parsers nothing_set) ≡ ok tt
unfolding program
defaults_valid = refl

wrapped_partitions : (load parsers odd).kafka.num_partitions ≡ pos 3
unfolding program
wrapped_partitions = refl

port_default : (load parsers odd).server.grpc_port ≡ pos 50_051
unfolding program
port_default = refl

validate_iff_example : (validate (load parsers odd) ≡ ok tt) ↔ IsValid (load parsers odd)
validate_iff_example = validate_iff (load parsers odd)
