-- ===== src/Lib.antt =====
-- A verification library of the event streaming gateway: clients ingest events over gRPC, which are
-- validated, stored and published; consumers and schemas are registered; circuit breakers, retries and
-- access control stand around these paths. Paths are from the repository's root.
--
-- Parts and files
--   Domain/Event, Domain/Filter: the event (internal/domain/entity/event.go) and the filter
--     (internal/domain/valueobject/filter.go). A `With...` method is a function to a changed copy. Regular
--     expressions are a parameter, the record `Regexp`.
--   Domain/Transformation, Domain/Consumer, Domain/Schema: the transformation
--     (internal/domain/valueobject/transformation.go), the consumer with its states
--     (internal/domain/entity/consumer.go) and the schema (internal/domain/entity/schema.go).
--   Store: the event store in memory (internal/infrastructure/replay/replay_store.go): the list of the
--     events and the index by minutes. `Store`, `cleanup`, `Query`, `QueryWithPagination`, `Count`, `GetByID`
--     and `Clear` are functions on its state; Store/Paging has the pages.
--   Breaker: the circuit breaker (pkg/circuitbreaker/circuit_breaker.go). `Execute` holds its mutex, so a
--     call is one step from a state to a state; the callbacks that it starts are a list.
--   Retry: the retries (pkg/retry/retry.go): `Do` as a loop over what each attempt meets, with the number of
--     the calls that it makes, and `calculateBackoff`.
--   Limiter: the rate limiter (internal/infrastructure/ratelimiter/rate_limiter.go): its two maps, with the
--     buckets of golang.org/x/time/rate as the parameter `Rate`. `Wait` is the two steps `start_wait` and
--     `end_wait`.
--   Producer: the Kafka producer (internal/infrastructure/kafka/producer.go), its calls one after the
--     other: `Publish` and `PublishBatch` with their retries and the circuit of the failure counts, the
--     timer that resets it, and `Close`.
--   Access: role-based access control (internal/infrastructure/auth/rbac.go) over the one table of role
--     permissions that all authorizers share.
--   Validator: the validator of data against JSON schemas (internal/infrastructure/schema/validator.go).
--   Requests: the requests of the application layer (internal/application/dto/event_dto.go).
--   Ingest: the ingestion of events (internal/application/service/event_service.go). Its ports are an
--     environment that answers each call, from the calls before it; the state is the trace of these calls
--     and of the metrics. It turns requests into events (Requests, Domain/Event).
--   Consumers: the management of consumers (internal/application/service/consumer_service.go) over any
--     repository that fills the record `ConsumerRepository`; the one in memory
--     (internal/infrastructure/repository/consumer_repository.go) is an instance.
--   Schemas: the management of schemas (internal/application/service/schema_service.go) over the repository
--     in memory (internal/infrastructure/repository/schema_repository.go).
--   Replay: the replay of stored events (internal/application/service/replay_service.go), over whatever the
--     store answers; Replay/Stored puts the event store there.
--   Subscriptions: the subscription service (internal/application/service/subscription_service.go); the
--     goroutine that forwards events is a step relation (Subscriptions/Forwarding), in which the broker, the
--     receiver and a cancellation take their steps between its own.
--   KafkaConsumer: the Kafka consumer (internal/infrastructure/kafka/consumer.go), its loop over the rounds,
--     in which a commit can fail; KafkaConsumer/Wire gives it the serializer.
--   Serializer: the serializers (internal/infrastructure/kafka/serializer.go) and `MarshalJSON` of the event;
--     encoding/json is the parameter `Json`.
--   Transformer: the transformation engine (internal/infrastructure/transformer/engine.go) with its caches;
--     gojq, cel-go, text/template and encoding/json are the parameter `Libraries`.
--   Health: the health checks and their handlers (internal/infrastructure/health/health.go).
--   Config: the configuration (internal/infrastructure/config/config.go); the parsers are the parameter
--     `Parsers`.
--   Token: the tokens and their interceptors (internal/infrastructure/auth/jwt.go); golang-jwt is the
--     parameter `Jwt`.
--   Api: the gRPC handlers and converters (internal/api/grpc) over Ingest, Replay, Consumers, Schemas and
--     Health, and the health adapter of cmd/gateway/main.go. The messages of the protocol are records.
--   Server: the interceptors and their chain (internal/infrastructure/grpc/server.go, with those of Token),
--     around any handler; the streams' interceptors are the unary ones.
--   Common: tests on numbers, lists, signed integers, maps and results that the parts share.
--
-- How the code is read
--   A method that changes its receiver is a function to the changed state; an error is a value. Each reading
--   of the clock, each identifier that is made up and each random number is an argument. An instant is in
--   nanoseconds since the Unix epoch, a duration in nanoseconds, both unbounded; the 64-bit products and
--   sums of the pagination and of the jitter wrap as the code's do. A map is an association list with
--   distinct keys, and its order is one that an iteration can take. A byte slice is a list of numbers. The
--   loops over lists are structural recursion; the loop over the minutes of a query runs on fuel, which is
--   the number of the minutes from the first to the last, and that this is enough follows where a query is
--   compared with a linear search; the loop of `Do` runs on the retries that are left. A
--   goroutine that loops for ever is either a step relation or a function of the rounds that it has gone
--   through. A choice of a `select` between cases that are ready is an argument, or a step.
--
-- Not modelled
--   Locks are not: an operation that holds a lock is one step, and calls that interleave are not considered,
--   but for the forwarding of a subscription and the waits of the rate limiter. Log lines and the domain
--   events, which are only logged, are left out. Of cmd/gateway/main.go only the health adapter has a model;
--   the adapter of the broker, the composition of SubscribeEvents with its service, and the statistics that
--   only report have none. Generated code, metrics, logging and the start of the server are output and glue.
pub mod Common
pub mod Domain
pub mod Store
pub mod Breaker
pub mod Retry
pub mod Limiter
pub mod Producer
pub mod Access
pub mod Validator
pub mod Requests
pub mod Ingest
pub mod Consumers
pub mod Schemas
pub mod Replay
pub mod Subscriptions
pub mod KafkaConsumer
pub mod Serializer
pub mod Transformer
pub mod Health
pub mod Config
pub mod Token
pub mod Server
pub mod Api
