-- ===== src/Api/Gateway.antt =====
-- The handlers of the gateway (internal/api/grpc/gateway_handler.go) with their conversion
-- (internal/api/grpc/converter.go), and the adapter that answers for the health
-- (cmd/gateway/main.go). Log lines are left out.
use Prim.Native.String.{◌++◌ as str_append}
use high_performance_event_s.Common.{
  ℕ, ◌%◌, ◌-◌, Bool, String, List, [], ◌∷◌, map, Option, none, some, length, if◌then◌else◌,
  is_blank, str_eq, ltb,
}
use high_performance_event_s.Common.Int.{ℤ, pos, negsuc}
use high_performance_event_s.Common.Dict.{Dict}
use high_performance_event_s.Common.Outcome.{Outcome, ok, err}
use high_performance_event_s.Domain.Filter.{Regexp}
use high_performance_event_s.Domain.Transformation.{TransformationConfigDto}
use high_performance_event_s.Requests.{EventFilterDto}
use high_performance_event_s.Consumers.{
  RegisterConsumerRequest, ConsumerResponse, Moment, ConsumerRepository, Service, register,
  deregister, list_consumers,
}
use high_performance_event_s.Health.{Check, check_all}
use high_performance_event_s.Api.Messages.{
  Code, invalid_argument, internal, ProtoFilter, filter_dto,
}

-- `gatewayv1.TransformationConfig`; the type is the name that its generated `String` gives.
pub record ProtoTransformation : Type 0 where
  pub type_text : String
  pub expression : String

-- `gatewayv1.RoutingRule`
pub record ProtoRule : Type 0 where
  pub rule_filter : Option ProtoFilter
  pub transformation : Option ProtoTransformation

-- `gatewayv1.Consumer` of a registration; a rule may be nil.
pub record ProtoConsumer : Type 0 where
  pub name : String
  pub routing_rules : List (Option ProtoRule)

-- `gatewayv1.Consumer` of a listing
pub record ListedConsumer : Type 0 where
  pub id : String
  pub name : String
  pub active : Bool

-- A consumer as `ListConsumers` answers it
unfoldable pub listed_of : ConsumerResponse → ListedConsumer
listed_of c = record { id = c.id; name = c.name; active = str_eq c.status "Active" }

-- The first routing rule, if it is there
abbrev pub first_rule : List (Option ProtoRule) → Option ProtoRule
first_rule [] = none
first_rule (r ∷ rs) = r

-- The filter and the transformation of the first rule
unfoldable pub rule_dto : Option ProtoRule → EventFilterDto × TransformationConfigDto
unfolding filter_dto
rule_dto none = (filter_dto none, record { type_name = ""; expression = "" })
rule_dto (some r) = (
  filter_dto r.rule_filter,
  elim (r.transformation) [
    | none ↦ record { type_name = ""; expression = "" }
    | some t ↦ record { type_name = t.type_text; expression = t.expression }
  ],
)

-- `consumerProtoToDTO`, of a request that is not nil, with its consumer
unfoldable pub consumer_proto_to_dto : Option ProtoConsumer → RegisterConsumerRequest
unfolding rule_dto
consumer_proto_to_dto none =
    let (f, t) = rule_dto none in
    record { name = ""; group_id = ""; filter_config = some f; transform_config = some t }
consumer_proto_to_dto (some c) =
    let (f, t) = rule_dto (first_rule c.routing_rules) in
    record { name = c.name; group_id = ""; filter_config = some f; transform_config = some t }

-- `int32(n)`
unfoldable pub int_32 : ℕ → ℤ
int_32 n = let r = n % 4294967296 in if ltb r 2147483648 then pos r else negsuc (4294967295 - r)

module _ (R : Regexp) (repo : ConsumerRepository R) where
  -- `RegisterConsumer`; the request, or its consumer, may be nil.
  unfoldable pub handle_register_consumer :
      Option (Option ProtoConsumer) → Moment → Service R repo → Outcome Code String × Service R repo
  unfolding consumer_proto_to_dto
  handle_register_consumer none m w = (err invalid_argument, w)
  handle_register_consumer (some none) m w = (err invalid_argument, w)
  handle_register_consumer (some (some c)) m w =
      if is_blank c.name
      then (err invalid_argument, w)
      else (let (result, w') = register R repo (consumer_proto_to_dto (some c)) m w in
          elim result [ err e ↦ (err internal, w') | ok id ↦ (ok id, w') ])

  -- `DeregisterConsumer`, of the identifier in the request
  unfoldable pub handle_deregister_consumer :
      Option String → Service R repo → Outcome Code (Unit {0}) × Service R repo
  handle_deregister_consumer none w = (err invalid_argument, w)
  handle_deregister_consumer (some id) w =
      if is_blank id
      then (err invalid_argument, w)
      else (let (result, w') = deregister R repo id w in
          elim result [ err e ↦ (err internal, w') | ok done ↦ (ok tt, w') ])

  -- `ListConsumers`: the consumers of every group, and their number
  unfoldable pub handle_list_consumers :
      Option (Unit {0}) → Service R repo → Outcome Code (List ListedConsumer × ℤ) × Service R repo
  unfolding int_32 listed_of
  handle_list_consumers none w = (err invalid_argument, w)
  handle_list_consumers (some r) w =
      let (result, w') = list_consumers R repo "" w in
      elim result [
        | err e ↦ (err internal, w')
        | ok cs ↦ (let listed = map listed_of cs in (ok (listed, int_32 (length listed)), w'))
      ]

-- `gatewayv1.HealthStatus_Status`
pub data ServingStatus : Type 0 where
  status_healthy status_degraded status_unhealthy : ServingStatus

-- The switch of `GetHealth`
unfoldable pub serving_status : String → ServingStatus
serving_status s =
    if str_eq s "HEALTHY"
    then status_healthy
    else (if str_eq s "DEGRADED" then status_degraded else status_unhealthy)

-- `GetHealth`; `answer` is the health checker's, a status and a message.
unfoldable pub handle_get_health :
    Outcome String (String × String) → Outcome Code (ServingStatus × String)
unfolding serving_status
handle_get_health (err e) = err internal
handle_get_health (ok (status, message)) = ok (serving_status status, message)

-- `healthCheckerAdapter.GetStatus`, which never fails; `number` prints one.
unfoldable pub get_status :
    {World : Type 0}
    → (ℕ → String)
    → (ℕ → World)
    → ℤ
    → Dict (Check World)
    → Outcome String (String × String)
get_status number at_call now checks =
    let health = check_all at_call now checks in
    ok (health.status, str_append "checks: " (number (length health.checks)))
