-- ===== src/Token.antt =====
-- Tokens (internal/infrastructure/auth/jwt.go). Signing and parsing are those of golang-jwt: the
-- parameter `Jwt`. What an interceptor hands on are the claims that it puts into the context.
pub mod Authentication
mod Tests
use Prim.Native.String.{len, slice}
use high_performance_event_s.Common.{
  ℕ, Bool, true, false, ◌&&◌, String, List, [], ◌∷◌, Option, none, some, ltb, if◌then◌else◌,
  is_blank, str_eq,
}
use high_performance_event_s.Common.Int.{ℤ, ◌+ℤ◌}
use high_performance_event_s.Common.Outcome.{Outcome, ok, err}
use high_performance_event_s.Access.{Claims}

-- `Claims` with the registered claims that `GenerateToken` sets, where they are there; times are in
-- nanoseconds.
pub record TokenClaims : Type 0 where
  pub claims : Claims
  pub issuer : Option String
  pub issued_at : Option ℤ
  pub expires_at : Option ℤ

-- `JWTAuthenticator`
pub record JwtAuthenticator : Type 0 where
  pub secret : String
  pub issuer : String
  pub token_expiry : ℤ

-- `NewJWTAuthenticator`
unfoldable pub new_jwt_authenticator : String → String → ℤ → JwtAuthenticator
new_jwt_authenticator secret issuer expiry = record {
  secret = secret;
  issuer = issuer;
  token_expiry = expiry;
}

-- The method of a token, as the key function tells them apart
pub data SigningMethod : Type 0 where
  hmac : SigningMethod
  other_method : SigningMethod

-- golang-jwt: `numeric_date` is `NewNumericDate`, which cuts a time down to its precision; `sign` is `SignedString` of the claims with HS256; `parse` is `ParseWithClaims` at a time,
-- with the key function: an error, or the claims and whether the token is valid.
pub record Jwt : Type 0 where
  pub numeric_date : ℤ → ℤ
  pub sign : String → TokenClaims → Outcome String String
  pub parse :
      (SigningMethod → Outcome String String) → ℤ → String → Outcome String (Bool × TokenClaims)

pub data TokenError : Type 0 where
  empty_user empty_token invalid_token : TokenError
  sign_failed : String → TokenError
  parse_failed : String → TokenError

-- The key function of `ValidateToken`
unfoldable pub key_for : String → SigningMethod → Outcome String String
key_for secret hmac = ok secret
key_for secret other_method = err "unexpected signing method"

-- `tokenString` without the word `Bearer` and its blank
unfoldable pub strip_bearer : String → String
strip_bearer t = if ltb 7 (len t) && str_eq (slice t 0 7) "Bearer " then slice t 7 (len t) else t

-- Why an interceptor refuses a call
pub data Refusal : Type 0 where
  missing_metadata missing_token : Refusal
  bad_token : TokenError → Refusal

module _ (J : Jwt) where
  -- `GenerateToken`, with its reading of the clock
  unfoldable pub generate_token :
      JwtAuthenticator → String → List String → ℤ → Outcome TokenError String
  generate_token a user roles now =
      if is_blank user
      then err empty_user
      else (let claims : TokenClaims = record {
        claims = record { user_id = user; roles = roles };
        issuer = some a.issuer;
        issued_at = some (J.numeric_date now);
        expires_at = some (J.numeric_date (now +ℤ a.token_expiry));
      } in
          elim (J.sign a.secret claims) [ err e ↦ err (sign_failed e) | ok t ↦ ok t ])

  -- `ValidateToken`, at the time `now` of the library's clock
  unfoldable pub validate_token : JwtAuthenticator → ℤ → String → Outcome TokenError TokenClaims
  unfolding key_for
  validate_token a now t =
      if is_blank t then err empty_token else (elim (J.parse (key_for a.secret) now t) [
        | err e ↦ err (parse_failed e)
        | ok (valid, claims) ↦ if valid then ok claims else err invalid_token
      ])

  -- `UnaryInterceptor` and `StreamInterceptor`: the headers `authorization` of the call, where it has
  -- metadata; the handler is called with the claims of the result in its context.
  unfoldable pub authenticate :
      JwtAuthenticator → ℤ → Option (List String) → Outcome Refusal TokenClaims
  unfolding validate_token strip_bearer
  authenticate a now none = err missing_metadata
  authenticate a now (some []) = err missing_token
  authenticate a now (some (t ∷ rest)) = elim (validate_token a now (strip_bearer t)) [
    | err e ↦ err (bad_token e)
    | ok claims ↦ ok claims
  ]

-- `ExtractClaims`: what the context holds, if it holds claims
unfoldable pub extract_claims : Option TokenClaims → Outcome String TokenClaims
extract_claims none = err "claims not found in context"
extract_claims (some c) = ok c
