-- ===== src/Server.antt =====
-- The interceptors around every call (internal/infrastructure/grpc/server.go), those of unary calls and
-- those of streams alike. A handler is any function of the claims in its context and of its own state. The
-- gRPC library runs the first interceptor of a chain outermost. Log lines are left out.
pub mod Chain
mod Tests
use high_performance_event_s.Common.{
  Bool, true, false, String, List, [], ◌∷◌, ◌++◌, Option, none, some, if◌then◌else◌,
}
use high_performance_event_s.Common.Int.{ℤ}
use high_performance_event_s.Common.Outcome.{Outcome, ok, err}
use high_performance_event_s.Limiter.{Rate, TokenBucketLimiter, Answer, answered, empty_key, allow}
use high_performance_event_s.Token.{
  TokenClaims, JwtAuthenticator, Jwt, Refusal, authenticate, extract_claims,
}

-- What a call comes with: its headers, and the readings of the clock at its token, at the bucket of the
-- limiter and at its last access.
pub record Incoming : Type 0 where
  pub headers : Option (List String)
  pub now : ℤ
  pub asked : ℤ
  pub noted : ℤ

-- The status of a call that fails
pub data Status : Type 0 where
  unauthenticated : Refusal → Status
  resource_exhausted internal_error : Status
  -- one that the handler answers
  handler_error : String → Status

-- How a call ends
pub data Ended (A : Type 0) : Type 0 where
  done : A → Ended A
  failed : Status → Ended A
  panicked : Ended A

-- What is handed to the collector of metrics
pub data Measure : Type 0 where
  handler_error_recorded duration_recorded : Measure

-- What the calls share: the limiter, the metrics, and the state of the handlers
pub record Serving (L : Rate) (W : Type 0) : Type 0 where
  pub limiter : TokenBucketLimiter L
  pub measures : List Measure
  pub handlers : W

-- The state of the handlers is `W`, and `A` what they answer.
module _ (L : Rate) (J : Jwt) (W A : Type 0) where
  abbrev pub Handler : Type 0
  Handler = Option TokenClaims → Serving L W → Ended A × Serving L W

  abbrev pub Interceptor : Type 0
  Interceptor = Incoming → Handler → Handler

  -- `loggingUnaryInterceptor`, `loggingStreamInterceptor`
  unfoldable pub logging_interceptor : Interceptor
  logging_interceptor call handler context s = handler context s

  -- The interceptors of the tokens, with the claims put into the context
  unfoldable pub jwt_interceptor : JwtAuthenticator → Interceptor
  jwt_interceptor a call handler context s = elim (authenticate J a call.now call.headers) [
    | err e ↦ (failed (unauthenticated e), s)
    | ok claims ↦ handler (some claims) s
  ]

  -- `rbacAuthorizationUnaryInterceptor`, `rbacAuthorizationStreamInterceptor`: whatever claims there are,
  -- they are only logged.
  unfoldable pub rbac_authorization_interceptor : Interceptor
  rbac_authorization_interceptor call handler context s = elim (extract_claims context) [
    | err e ↦ handler context s
    | ok claims ↦ handler context s
  ]

  -- `rateLimitingUnaryInterceptor`, `rateLimitingStreamInterceptor`: one key for all callers
  unfoldable pub rate_limiting_interceptor : Interceptor
  rate_limiting_interceptor call handler context s =
      let (answer, limiter) = allow L call.asked call.noted "default" s.limiter in
      let used = record s { limiter = limiter } in
      elim answer [
        | empty_key ↦ (failed resource_exhausted, used)
        | answered allowed ↦ elim allowed [
          | true ↦ handler context used
          | false ↦ (failed resource_exhausted, used)
        ]
      ]

  abbrev pub measured : List Measure → Serving L W → Serving L W
  measured ms s = record s { measures = s.measures ++ ms }

  -- `metricsUnaryInterceptor`, `metricsStreamInterceptor`: a panic passes before anything is recorded.
  unfoldable pub metrics_interceptor : Interceptor
  metrics_interceptor call handler context s =
      let (ended, s') = handler context s in
      elim ended [
        | done a ↦ (done a, measured (duration_recorded ∷ []) s')
        | failed e ↦ (failed e, measured (handler_error_recorded ∷ duration_recorded ∷ []) s')
        | panicked ↦ (panicked, s')
      ]

  -- `recoveryUnaryInterceptor`, `recoveryStreamInterceptor`
  unfoldable pub recovery_interceptor : Interceptor
  recovery_interceptor call handler context s =
      let (ended, s') = handler context s in
      elim ended [
        | done a ↦ (done a, s')
        | failed e ↦ (failed e, s')
        | panicked ↦ (failed internal_error, s')
      ]

  -- `AddUnaryInterceptor`, `AddStreamInterceptor`
  unfoldable pub add_interceptor : Interceptor → List Interceptor → List Interceptor
  add_interceptor i chain = chain ++ i ∷ []

  abbrev pub add_if : Bool → Interceptor → List Interceptor → List Interceptor
  add_if given i chain = if given then add_interceptor i chain else chain

  -- The chain that `NewGRPCServer` builds, where the configuration and the logger are given: the
  -- authenticator may be nil, and so may the authorizer, the limiter and the collector.
  unfoldable pub new_grpc_server : Option JwtAuthenticator → Bool → Bool → Bool → List Interceptor
  unfolding add_interceptor
  new_grpc_server jwt_auth rbac_auth rate_limiter metrics_collector =
      let logged = add_interceptor logging_interceptor [] in
      let authenticated = elim jwt_auth as (λ x. List Interceptor) [
        | none ↦ logged
        | some a ↦ add_interceptor (jwt_interceptor a) logged
      ] in
      let authorized = add_if rbac_auth rbac_authorization_interceptor authenticated in
      let limited = add_if rate_limiter rate_limiting_interceptor authorized in
      let measuring = add_if metrics_collector metrics_interceptor limited in
      add_interceptor recovery_interceptor measuring

  -- `grpc.ChainUnaryInterceptor`, `grpc.ChainStreamInterceptor`: a call through a chain
  abbrev pub through : List Interceptor → Interceptor
  through [] call handler = handler
  through (i ∷ chain) call handler = i call (through chain call handler)
