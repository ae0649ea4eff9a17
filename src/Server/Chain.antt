-- ===== src/Server/Chain.antt =====
-- What a call meets on its way through the whole chain of interceptors.

use high_performance_event_s.Common.{
  ◌≡◌, ◌≢◌, refl, ◌⊎◌, inl, inr, true, false, List, [], ◌∷◌, ◌++◌, none, some, arith,
}
use high_performance_event_s.Common.Outcome.{ok, err, Outcome-cases}
use high_performance_event_s.Limiter.{Rate, TokenBucketLimiter, Answer, answered, empty_key, allow}
use high_performance_event_s.Token.{
  TokenClaims, JwtAuthenticator, Jwt, Refusal, authenticate, extract_claims,
}
use high_performance_event_s.Server.{
  Incoming, Status, unauthenticated, resource_exhausted, internal_error, Ended, done, failed,
  panicked, Measure, handler_error_recorded, duration_recorded, Serving, Handler,
  logging_interceptor, jwt_interceptor, rbac_authorization_interceptor, rate_limiting_interceptor,
  metrics_interceptor, recovery_interceptor, add_interceptor, new_grpc_server, through,
}

-- How a call ends that the handler ends in this way: a panic is answered as an internal error.
abbrev pub recovered : {A : Type 0} → Ended A → Ended A
recovered (done a) = done a
recovered (failed e) = failed e
recovered panicked = failed internal_error

-- What is measured of a call that the handler ends in this way.
abbrev pub measures_of : {A : Type 0} → Ended A → List Measure
measures_of (done a) = duration_recorded ∷ []
measures_of (failed e) = handler_error_recorded ∷ duration_recorded ∷ []
measures_of panicked = handler_error_recorded ∷ duration_recorded ∷ []

Ended-cases :
    {A : Type 0} (x : Ended A)
    → ((a : A) × (x ≡ done a)) ⊎ (((e : Status) × (x ≡ failed e)) ⊎ (x ≡ panicked))
Ended-cases (done a) = inl (a, refl)
Ended-cases (failed e) = inr (inl (e, refl))
Ended-cases panicked = inr (inr refl)

Answer-cases : (x : Answer) → (x ≡ answered true) ⊎ ((x ≡ answered false) ⊎ (x ≡ empty_key))
Answer-cases (answered true) = inl refl
Answer-cases (answered false) = inr (inl refl)
Answer-cases empty_key = inr (inr refl)

module _ (L : Rate) (J : Jwt) (W A : Type 0) (a : JwtAuthenticator) (call : Incoming)
    (handler : Handler L J W A) (s : Serving L W) where
  -- The limiter's answer to the call, and the state after it was asked.
  abbrev pub asked : Answer × TokenBucketLimiter L
  asked = allow L call.asked call.noted "default" s.limiter

  abbrev pub let_in : Serving L W
  let_in = record s { limiter = asked.1 }

  -- The ways of a call: its token is refused, and nothing changes; the limiter refuses it, and nothing but
  -- the limiter changes; or the handler is called, once, with the claims of the token.
  pub data Way (ended : Ended A) (s' : Serving L W) : Type 0 where
    unknown :
        (e : Refusal)
        → authenticate J a call.now call.headers ≡ err e
        → ended ≡ failed (unauthenticated e)
        → s' ≡ s
        → Way ended s'
    exhausted :
        (c : TokenClaims)
        → authenticate J a call.now call.headers ≡ ok c
        → asked.0 ≢ answered true
        → ended ≡ failed resource_exhausted
        → s' ≡ let_in
        → Way ended s'
    handled :
        (c : TokenClaims)
        → authenticate J a call.now call.headers ≡ ok c
        → asked.0 ≡ answered true
        → ended ≡ recovered (handler (some c) let_in).0
        → s' ≡ record (handler (some c) let_in).1 {
          measures =
              (handler (some c) let_in).1.measures ++ measures_of (handler (some c) let_in).0;
        }
        → Way ended s'

  -- The interceptors behind those of the tokens and of the limiter.
  measured_and_recovered :
      (c : TokenClaims)
      → let x = handler (some c) let_in in
        metrics_interceptor L J W A call
          (through L J W A (recovery_interceptor L J W A ∷ []) call handler)
          (some c)
          let_in
        ≡ (recovered x.0, record x.1 { measures = x.1.measures ++ measures_of x.0 })
  unfolding metrics_interceptor recovery_interceptor
  measured_and_recovered c = elim (Ended-cases (handler (some c) let_in).0) [
    | inl (b, h) ↦ ground (arith, h)
    | inr (inl (e, h)) ↦ ground (arith, h)
    | inr (inr h) ↦ ground (arith, h)
  ]

  -- Every call of a server with an authenticator, an authorizer, a limiter and a collector goes one of three
  -- ways: its token is refused, and nothing changes, not even the limiter; the limiter refuses it, and the
  -- handler is not called and nothing measured; or the handler is called, once, with the claims of the
  -- token, its panic is answered as an internal error, and the call is measured.
  pub through-Way :
      let x =
        through L J W A (new_grpc_server L J W A (some a) true true true) call handler none s in
      Way x.0 x.1
  unfolding new_grpc_server logging_interceptor jwt_interceptor rbac_authorization_interceptor
      rate_limiting_interceptor add_interceptor extract_claims
  through-Way = elim (Outcome-cases (authenticate J a call.now call.headers)) [
    | inr (e, bad) ↦ unknown e bad (ground (arith, bad)) (ground (arith, bad))
    | inl (c, good) ↦ elim (Answer-cases asked.0) [
      | inr (inl full) ↦
          exhausted c good (λ e. ground (arith, full, e)) (ground (arith, good, full))
            (ground (arith, good, full))
      | inr (inr full) ↦
          exhausted c good (λ e. ground (arith, full, e)) (ground (arith, good, full))
            (ground (arith, good, full))
      | inl free ↦
          handled c good free (ground (arith, good, free, measured_and_recovered c))
            (ground (arith, good, free, measured_and_recovered c))
    ]
  ]
