-- ===== src/Server/Tests.antt =====
-- Calls of a server whose bucket holds one token, and whose handler panics.

use high_performance_event_s.Common.{
  ℕ, suc, ◌≡◌, refl, Bool, true, false, [], ◌∷◌, none, some, if◌then◌else◌, str_eq,
}
use high_performance_event_s.Common.Int.{pos}
use high_performance_event_s.Common.Dict.{lookup, insert}
use high_performance_event_s.Common.Outcome.{ok, err}
use high_performance_event_s.Limiter.{
  Rate, TokenBucketLimiter, get_or_create_limiter, update_last_access, allow,
}
use high_performance_event_s.Token.{
  TokenClaims, JwtAuthenticator, Jwt, validate_token, strip_bearer, key_for, authenticate,
  extract_claims,
}
use high_performance_event_s.Server.{
  Incoming, resource_exhausted, internal_error, Ended, failed, panicked, Serving, Handler,
  logging_interceptor, jwt_interceptor, rbac_authorization_interceptor, rate_limiting_interceptor,
  metrics_interceptor, recovery_interceptor, add_interceptor, new_grpc_server, through,
}
use high_performance_event_s.Server.Chain.{Way, through-Way}

abbrev single : Rate
single = record {
  Bucket = Bool;
  new_limiter = λ rps burst. true;
  allow = λ t b. (b, false);
  reserve = λ t b. b;
}

abbrev ada : TokenClaims
ada = record {
  claims = record { user_id = "ada"; roles = [] };
  issuer = none;
  issued_at = none;
  expires_at = none;
}

-- Every token but one is Ada's.
abbrev trusting : Jwt
trusting = record {
  numeric_date = λ t. t;
  sign = λ secret c. ok "t";
  parse = λ key now t. if str_eq t "x" then err "forged" else ok (true, ada);
}

abbrev gateway : JwtAuthenticator
gateway = record { secret = "s"; issuer = "gateway"; token_expiry = pos 10 }

abbrev call : Incoming
call = record { headers = some ("Bearer t" ∷ []); now = pos 1; asked = pos 1; noted = pos 1 }

abbrev failing : Handler single trusting ℕ ℕ
failing context s = (panicked, record s { handlers = suc s.handlers })

abbrev limiter : TokenBucketLimiter single
limiter = record {
  limiters = [];
  last_access = [];
  requests_per_second = pos 1;
  burst = pos 1;
  stale_threshold = pos 60;
  is_running = true;
}

abbrev idle : Serving single ℕ
idle = record { limiter = limiter; measures = []; handlers = 0 }

abbrev serve : Incoming → Serving single ℕ → Ended ℕ × Serving single ℕ
serve c s =
    through single trusting ℕ ℕ (new_grpc_server single trusting ℕ ℕ (some gateway) true true true)
      c failing none s

program : Unit {0}
unfolding new_grpc_server logging_interceptor jwt_interceptor rbac_authorization_interceptor
    rate_limiting_interceptor metrics_interceptor recovery_interceptor add_interceptor
    extract_claims authenticate validate_token strip_bearer key_for allow get_or_create_limiter
    update_last_access lookup insert
program = tt

first_call : (serve call idle).0 ≡ failed internal_error
unfolding program
first_call = refl

second_call : (serve call (serve call idle).1).0 ≡ failed resource_exhausted
unfolding program
second_call = refl

called_once : (serve call (serve call idle).1).1.handlers ≡ 1
unfolding program
called_once = refl

through-Way_example :
    let x =
      through single trusting ℕ ℕ
        (new_grpc_server single trusting ℕ ℕ (some gateway) true true true)
        call
        failing
        none
        idle in
    Way single trusting ℕ ℕ gateway call failing idle x.0 x.1
through-Way_example = through-Way single trusting ℕ ℕ gateway call failing idle
