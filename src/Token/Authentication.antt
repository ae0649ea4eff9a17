-- ===== src/Token/Authentication.antt =====
-- A token that is generated is accepted up to its expiry, with the claims it was generated for.

use high_performance_event_s.Common.{
  ◌≡◌, refl, ap, ◌∙◌, ◌⊎◌, inl, inr, Option, none, true, false, String, List, some, arith, is_blank,
  Bool-cases,
}
use high_performance_event_s.Common.Int.{ℤ, ltb_ℤ, ◌+ℤ◌}
use high_performance_event_s.Common.Outcome.{Outcome, ok, err, Outcome-cases}
use high_performance_event_s.Token.{
  TokenClaims, JwtAuthenticator, SigningMethod, hmac, Jwt, key_for, generate_token, validate_token,
  parse_failed,
}

-- The times of the claims are as precise as golang-jwt keeps them.
abbrev pub IsCut : Jwt → Option ℤ → Type 0
IsCut J none = Unit
IsCut J (some t) = J.numeric_date t ≡ t

-- What is relied on of golang-jwt: cutting a time twice cuts it once; a signed token is not empty;
-- parsing decodes a token with the key that its method asks for, which gives back the claims that were
-- signed with this key, and then looks whether the claims have expired.
pub record Faithful (J : Jwt) : Type 0 where
  pub cuts : (t : ℤ) → J.numeric_date (J.numeric_date t) ≡ J.numeric_date t
  pub not_empty :
      (secret t : String) (c : TokenClaims) → J.sign secret c ≡ ok t → is_blank t ≡ false
  pub decode : (SigningMethod → Outcome String String) → String → Outcome String TokenClaims
  pub decodes :
      (key : SigningMethod → Outcome String String) (secret t : String) (c : TokenClaims)
      → J.sign secret c ≡ ok t
      → key hmac ≡ ok secret
      → IsCut J c.issued_at
      → IsCut J c.expires_at
      → decode key t ≡ ok c
  pub fresh :
      (key : SigningMethod → Outcome String String) (t : String) (c : TokenClaims) (expiry now : ℤ)
      → decode key t ≡ ok c
      → c.expires_at ≡ some expiry
      → ltb_ℤ now expiry ≡ true
      → J.parse key now t ≡ ok (true, c)
  pub expired :
      (key : SigningMethod → Outcome String String) (t : String) (c : TokenClaims) (expiry now : ℤ)
      → decode key t ≡ ok c
      → c.expires_at ≡ some expiry
      → ltb_ℤ now expiry ≡ false
      → (e : String) × (J.parse key now t ≡ err e)

-- The claims of a token that is generated.
abbrev pub generated_claims : Jwt → JwtAuthenticator → String → List String → ℤ → TokenClaims
generated_claims J a user roles made = record {
  claims = record { user_id = user; roles = roles };
  issuer = some a.issuer;
  issued_at = some (J.numeric_date made);
  expires_at = some (J.numeric_date (made +ℤ a.token_expiry));
}

signed_claims :
    (J : Jwt) (a : JwtAuthenticator) (user t : String) (roles : List String) (made : ℤ)
    → generate_token J a user roles made ≡ ok t
    → J.sign a.secret (generated_claims J a user roles made) ≡ ok t
unfolding generate_token
signed_claims J a user t roles made h =
    let c = generated_claims J a user roles made in
    elim (Bool-cases (is_blank user)) [
      | inl b ↦ absurd (ground (arith, b, h))
      | inr b ↦ elim (Outcome-cases (J.sign a.secret c)) [
        | inr (e, bad) ↦ absurd (ground (arith, b, bad, h))
        | inl (signed, good) ↦
            let same : signed ≡ t = ground (arith, b, good, h) in good ∙ ap (λ x. ok x) same
      ]
    ]

-- A token that `GenerateToken` returns is accepted by `ValidateToken` of the same secret, at any time
-- before its expiry as golang-jwt cuts it, and gives the user, the roles, the issuer and the times that
-- it was generated with; from then on it is refused.
pub validate_token-generate_token :
    (J : Jwt) (a : JwtAuthenticator) (user t : String) (roles : List String) (made now : ℤ)
    → Faithful J
    → generate_token J a user roles made ≡ ok t
    → let expiry = J.numeric_date (made +ℤ a.token_expiry) in
      ((ltb_ℤ now expiry ≡ true)
        × (validate_token J a now t ≡ ok (generated_claims J a user roles made)))
      ⊎ ((ltb_ℤ now expiry ≡ false)
          × ((e : String) × (validate_token J a now t ≡ err (parse_failed e))))
unfolding validate_token key_for
validate_token-generate_token J a user t roles made now faithful h =
    let c = generated_claims J a user roles made in
    let expiry = J.numeric_date (made +ℤ a.token_expiry) in
    let given = signed_claims J a user t roles made h in
    let full = faithful.not_empty a.secret t c given in
    let key = key_for a.secret in
    let decoded =
      faithful.decodes key a.secret t c given refl (faithful.cuts made)
        (faithful.cuts (made +ℤ a.token_expiry)) in
    elim (Bool-cases (ltb_ℤ now expiry)) [
      | inl b ↦ inl (b, ground (arith, full, faithful.fresh key t c expiry now decoded refl b))
      | inr b ↦
          let (e, refused) = faithful.expired key t c expiry now decoded refl b in
          inr (b, (e, ground (arith, full, refused)))
    ]
