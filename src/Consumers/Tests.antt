-- ===== src/Consumers/Tests.antt =====
-- Consumers registered in memory.
use high_performance_event_s.Common.{eq_iff, ◌≡◌, ◌≢◌, refl, true, String, [], none, some, arith}
use high_performance_event_s.Common.Int.{pos}
use high_performance_event_s.Common.Dict.{lookup, insert, delete}
use high_performance_event_s.Common.Outcome.{ok, err}
use high_performance_event_s.Domain.Filter.{Regexp, new_event_filter}
use high_performance_event_s.Domain.Transformation.{
  new_transformation, to_transformation, none_with_expression, type_of_name,
  validate as validate_transformation,
}
use high_performance_event_s.Domain.Consumer.{new_consumer, activate, empty_group}
use high_performance_event_s.Consumers.{
  RegisterConsumerRequest, Moment, Service, in_memory, register, deregister, get_consumer,
  build_consumer, requested_filter, requested_transformation, invalid_config, invalid_consumer,
}
use high_performance_event_s.Consumers.Laws.{IsLawful, in_memory-IsLawful}
use high_performance_event_s.Consumers.Registration.{ConsumerCourse, register-ConsumerCourse}

-- Regular expressions without special characters: they match themselves.
abbrev literal : Regexp
literal = record { Regex = String; compile = λ p. some p; match_string = λ r text. true }

abbrev request : RegisterConsumerRequest
request = record { name = "audit"; group_id = "ops"; filter_config = none; transform_config = none }

abbrev ungrouped : RegisterConsumerRequest
ungrouped = record request { group_id = "" }

-- The name of a type as the protocol buffers spell it.
abbrev misnamed : RegisterConsumerRequest
misnamed = record request {
  transform_config = some (record { type_name = "TRANSFORMATION_TYPE_JQ"; expression = "." });
}

abbrev now : Moment
now = record { id = "c1"; created = pos 1; activated = pos 2 }

unfoldable fresh : Service literal (in_memory literal)
unfolding in_memory
fresh = record { stored = []; metrics = [] }

program : Unit {0}
unfolding fresh lookup insert delete in_memory register deregister get_consumer build_consumer
    requested_filter requested_transformation new_event_filter new_transformation to_transformation
    type_of_name new_consumer activate validate_transformation
program = tt

ungrouped_refused :
    (register literal (in_memory literal) ungrouped now fresh).0
    ≡ err (invalid_consumer empty_group)
unfolding program
ungrouped_refused = refl

misnamed_refused :
    (register literal (in_memory literal) misnamed now fresh).0
    ≡ err (invalid_config none_with_expression)
unfolding program
misnamed_refused = refl

registered : (register literal (in_memory literal) request now fresh).0 ≡ ok "c1"
unfolding program
registered = refl

abbrev after : Service literal (in_memory literal)
after = (register literal (in_memory literal) request now fresh).1

deregistered : (deregister literal (in_memory literal) "c1" after).0 ≡ ok tt
unfolding program
deregistered = refl

register-ConsumerCourse_example :
    ConsumerCourse literal
      (in_memory literal)
      request
      now
      fresh
      (register literal (in_memory literal) request now fresh).0
      after
register-ConsumerCourse_example =
    register-ConsumerCourse literal (in_memory literal) request now fresh

other : ◌≢◌ {A = String} "c1" "c2"
other e = ground (arith, e, eq_iff "c1" "c2")

in_memory-IsLawful_example : IsLawful literal (in_memory literal)
in_memory-IsLawful_example = in_memory-IsLawful literal
