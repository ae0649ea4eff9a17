-- ===== src/Api/Registrations.antt =====
-- What consumers, schemas and the health look like over gRPC.
use Prim.Native.String.{◌++◌ as str_append}
use high_performance_event_s.Common.{
  All, List, [], ◌∷◌, eq_iff, Option-cases, length, ◌≡◌, ◌≢◌, refl, sym, ap, ◌∙◌, inl, inr, ◌||◌, ℕ,
  String, Option, none, some, is_blank, arith, Bool-cases,
}
use high_performance_event_s.Common.Int.{ℤ}
use high_performance_event_s.Common.Dict.{Dict, lookup, lookup-insert}
use high_performance_event_s.Common.Outcome.{ok, err, Outcome-cases}
use high_performance_event_s.Domain.Filter.{Regexp}
use high_performance_event_s.Domain.Consumer.{Consumer, new_consumer}
use high_performance_event_s.Consumers.{
  Moment, ConsumerRepository, Service, register, build_consumer, requested_filter,
  requested_transformation,
}
use high_performance_event_s.Health.{Check, check_all}
use high_performance_event_s.Schemas as S
use high_performance_event_s.Schemas.Registration.{
  SchemaCourse, not_a_schema, duplicate, register-SchemaCourse, to_schema-fields, found_registered,
}
use high_performance_event_s.Schemas.Names.{get_by_name_version-none}
use high_performance_event_s.Health.Verdict.{check_all-status}
use high_performance_event_s.Api.Messages.{Code, invalid_argument, internal}
use high_performance_event_s.Api.Gateway.{
  ProtoConsumer, consumer_proto_to_dto, handle_register_consumer, status_unhealthy, serving_status,
  handle_get_health, get_status,
}
use high_performance_event_s.Api.SchemaCalls.{
  ProtoSchemaRequest, schema_proto_to_dto, handle_register_schema,
}

module _ (R : Regexp) where
  -- No consumer is built from a request over gRPC, which has no group.
  build_consumer-no_group :
      (c : ProtoConsumer) (m : Moment) (k : Consumer R)
      → build_consumer R (consumer_proto_to_dto (some c)) m ≢ ok k
  unfolding build_consumer new_consumer consumer_proto_to_dto
  build_consumer-no_group c m k h =
      let dto = consumer_proto_to_dto (some c) in
      elim (Outcome-cases (requested_filter R dto.filter_config)) [
        | inr (e, a) ↦ ground (arith, a, h)
        | inl (f, a) ↦ elim (Outcome-cases (requested_transformation R dto.transform_config)) [
          | inr (e, b) ↦ ground (arith, a, b, h)
          | inl (t, b) ↦ ground (arith, a, b, h)
        ]
      ]

  -- `RegisterConsumer` never registers anything: over any repository, every request is answered by an
  -- error, and the repository is not touched. The requests of the protocol have no group, and a consumer
  -- without one is refused.
  pub handle_register_consumer-refused :
      (repo : ConsumerRepository R) (request : Option (Option ProtoConsumer)) (m : Moment)
      (w : Service R repo)
      → ((code : Code) × ((handle_register_consumer R repo request m w).0 ≡ err code))
        × ((handle_register_consumer R repo request m w).1.stored ≡ w.stored)
  unfolding handle_register_consumer register
  handle_register_consumer-refused repo none m w = ((invalid_argument, refl), refl)
  handle_register_consumer-refused repo (some none) m w = ((invalid_argument, refl), refl)
  handle_register_consumer-refused repo (some (some c)) m w = elim (Bool-cases (is_blank c.name)) [
    | inl b ↦ ((invalid_argument, ground (arith, b)), ground (arith, b))
    | inr b ↦ elim (Outcome-cases (build_consumer R (consumer_proto_to_dto (some c)) m)) [
      | inl (k, good) ↦ absurd (build_consumer-no_group c m k good)
      | inr (e, bad) ↦ ((internal, ground (arith, b, bad)), ground (arith, b, bad))
    ]
  ]

-- What `RegisterSchema` answers with success is what the service registers.
registered_over :
    (r : ProtoSchemaRequest) (now : ℤ) (id x : String) (w : S.Service)
    → (handle_register_schema (some r) now id w).0 ≡ ok x
    → ((S.register (schema_proto_to_dto r) now id w).0 ≡ ok x)
      × ((handle_register_schema (some r) now id w).1
          ≡ (S.register (schema_proto_to_dto r) now id w).1)
unfolding handle_register_schema
registered_over r now id x w h = elim (Bool-cases (is_blank r.name || is_blank r.definition)) [
  | inl b ↦ absurd (ground (arith, b, h))
  | inr b ↦ elim (Outcome-cases (S.register (schema_proto_to_dto r) now id w).0) [
    | inl (y, good) ↦ (ground (arith, b, good, h), ground (arith, b, good))
    | inr (e, bad) ↦ absurd (ground (arith, b, bad, h))
  ]
]

-- A name that is taken at the version 1.0 is refused.
refused_over :
    (r : ProtoSchemaRequest) (now : ℤ) (id y : String) (w : S.Service)
    → S.get_by_name_version r.name "1.0" w.stored ≢ none
    → ((handle_register_schema (some r) now id w).0 ≢ ok y)
      × ((handle_register_schema (some r) now id w).1.stored ≡ w.stored)
unfolding handle_register_schema schema_proto_to_dto
refused_over r now id y w taken = elim (Bool-cases (is_blank r.name || is_blank r.definition)) [
  | inl b ↦ (λ h. ground (arith, b, h), ground (arith, b))
  | inr b ↦ elim (register-SchemaCourse (schema_proto_to_dto r) now id w) [
    | not_a_schema e bad out same ↦ (λ h. ground (arith, b, out, h), ground (arith, b, out, same))
    | duplicate s other good found out same ↦
        (λ h. ground (arith, b, out, h), ground (arith, b, out, same))
    | SchemaCourse.registered s good free out same ↦ absurd (taken free)
  ]
]

-- A call of `RegisterSchema`: its request, the clock, and the identifier that is made up.
pub record SchemaCall : Type 0 where
  pub request : Option ProtoSchemaRequest
  pub now : ℤ
  pub id : String

abbrev pub run_calls : List SchemaCall → S.Service → S.Service
run_calls [] w = w
run_calls (c ∷ calls) w = run_calls calls (handle_register_schema c.request c.now c.id w).1

-- A call with another identifier leaves what is stored under this one.
call_other :
    (c : SchemaCall) (w : S.Service) (id : String)
    → c.id ≢ id
    → lookup id (handle_register_schema c.request c.now c.id w).1.stored ≡ lookup id w.stored
unfolding handle_register_schema S.save
call_other c w id h = elim (Option-cases c.request) [
  | inl a ↦ ground (arith, a)
  | inr (r, a) ↦ elim (Bool-cases (is_blank r.name || is_blank r.definition)) [
    | inl b ↦ ground (arith, a, b)
    | inr b ↦
        let dto = schema_proto_to_dto r in
        let kept : (S.register dto c.now c.id w).1.stored
            ≡ (handle_register_schema c.request c.now c.id w).1.stored =
          elim (Outcome-cases (S.register dto c.now c.id w).0) [
            | inl (y, good) ↦ ground (arith, a, b, good)
            | inr (e, bad) ↦ ground (arith, a, b, bad)
          ] in
        ap (λ z. lookup id z) (sym kept) ∙ (elim (register-SchemaCourse dto c.now c.id w) [
          | not_a_schema e bad out same ↦ ap (λ z. lookup id z) same
          | duplicate s other good found out same ↦ ap (λ z. lookup id z) same
          | SchemaCourse.registered s good free out same ↦
              ap (λ z. lookup id z) same
              ∙ ground (
                arith,
                to_schema-fields dto c.now c.id s good,
                lookup-insert s.id id s w.stored,
                eq_iff s.id id,
                h,
              )
        ])
  ]
]

run_calls-other :
    (calls : List SchemaCall) (w : S.Service) (id : String)
    → All (λ c. c.id ≢ id) calls
    → lookup id (run_calls calls w).stored ≡ lookup id w.stored
run_calls-other [] w id a = refl
run_calls-other (c ∷ calls) w id a =
    run_calls-other calls (handle_register_schema c.request c.now c.id w).1 id a.1
    ∙ call_other c w id a.0

-- Once `RegisterSchema` has registered a schema, no further schema of its name can be registered over
-- gRPC, whatever its definition and its format, after any further calls of `RegisterSchema` that do not
-- make up the identifier of the first again: the answer is an error and the repository stays as it is.
-- Every request is given the version 1.0.
pub handle_register_schema-once :
    (r r' : ProtoSchemaRequest) (now later : ℤ) (id j x y : String) (w : S.Service)
    (calls : List SchemaCall)
    → r'.name ≡ r.name
    → (handle_register_schema (some r) now id w).0 ≡ ok x
    → All (λ c. c.id ≢ id) calls
    → let w' = run_calls calls (handle_register_schema (some r) now id w).1 in
      ((handle_register_schema (some r') later j w').0 ≢ ok y)
      × ((handle_register_schema (some r') later j w').1.stored ≡ w'.stored)
unfolding schema_proto_to_dto
handle_register_schema-once r r' now later id j x y w calls same h others =
    let (done, left) = registered_over r now id x w h in
    let dto = schema_proto_to_dto r in
    let first = (handle_register_schema (some r) now id w).1 in
    let w' = run_calls calls first in
    let taken : S.get_by_name_version r'.name "1.0" w'.stored ≢ none = λ free.
      elim (register-SchemaCourse dto now id w) [
        | not_a_schema e bad out kept ↦ ground (arith, out, done)
        | duplicate s other good found out kept ↦ ground (arith, out, done)
        | SchemaCourse.registered s good none_yet out kept ↦
            let fields = to_schema-fields dto now id s good in
            let stored : lookup id w'.stored ≡ some s =
              run_calls-other calls first id others
              ∙ ap (λ z. lookup id z) (ap (λ z. z.stored) left ∙ kept)
              ∙ found_registered dto now id s w.stored good in
            ground (
              arith,
              fields,
              same,
              get_by_name_version-none r'.name "1.0" w'.stored id s free stored,
              eq_iff s.name r'.name,
              eq_iff s.version "1.0",
            )
      ] in
    refused_over r' later j y w' taken

-- `GetHealth` answers that the gateway is unhealthy, whichever checks are registered and whatever they
-- answer: the adapter passes the status in small letters, and the handler expects capitals.
pub get_health-unhealthy :
    {World : Type 0} (number : ℕ → String) (at_call : ℕ → World) (now : ℤ)
    (checks : Dict (Check World))
    → (message : String) × (handle_get_health (get_status number at_call now checks)
        ≡ ok (status_unhealthy, message))
unfolding handle_get_health get_status serving_status
get_health-unhealthy number at_call now checks =
    let health = check_all at_call now checks in
    let message = str_append "checks: " (number (length health.checks)) in
    (
      message,
      elim (check_all-status at_call now checks) [
        | inl h ↦ ap (λ t. ok (serving_status t, message)) h
        | inr h ↦ ap (λ t. ok (serving_status t, message)) h
      ],
    )
