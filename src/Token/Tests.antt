-- ===== src/Token/Tests.antt =====
-- A library of tokens that are the name of their user.

use high_performance_event_s.Common.{
  ℕ, suc, ◌≡◌, ◌⊎◌, ◌/◌, ◌*◌, refl, ap, Bool, true, false, ◌&&◌, String, List, [], ◌∷◌, Option,
  none, some, arith, if◌then◌else◌, is_blank, str_eq, eq_iff,
}
use high_performance_event_s.Common.Int.{ℤ, pos, negsuc, ltb_ℤ, ◌+ℤ◌}
use high_performance_event_s.Common.Outcome.{ok, err}
use high_performance_event_s.Token.{
  TokenClaims, JwtAuthenticator, hmac, Jwt, key_for, strip_bearer, generate_token, validate_token,
  parse_failed, authenticate,
}
use high_performance_event_s.Token.Authentication.{
  Faithful, generated_claims, validate_token-generate_token,
}

abbrev ada : TokenClaims
ada = record {
  claims = record { user_id = "ada"; roles = "admin" ∷ [] };
  issuer = some "gateway";
  issued_at = some (pos 5_000_000_000);
  expires_at = some (pos 15_000_000_000);
}

abbrev gateway : JwtAuthenticator
gateway = record { secret = "s"; issuer = "gateway"; token_expiry = pos 10_600_000_000 }

abbrev one_role : List String → Bool
one_role [] = false
one_role (r ∷ []) = str_eq r "admin"
one_role (r ∷ s ∷ rest) = false

abbrev is_at : ℕ → Option ℤ → Bool
is_at n none = false
is_at n (some t) = ltb_ℤ t (pos (suc n)) && ltb_ℤ (pos n) (t +ℤ pos 1)

abbrev from_gateway : Option String → Bool
from_gateway none = false
from_gateway (some i) = str_eq i "gateway"

abbrev is_ada : TokenClaims → Bool
is_ada c =
    (str_eq c.claims.user_id "ada" && one_role c.claims.roles)
    && (from_gateway c.issuer
        && (is_at 5_000_000_000 c.issued_at && is_at 15_000_000_000 c.expires_at))

one_role-eq : (rs : List String) → one_role rs ≡ true → rs ≡ "admin" ∷ []
one_role-eq [] h = absurd (ground (arith, h))
one_role-eq (r ∷ []) h = ground (arith, h, eq_iff r "admin")
one_role-eq (r ∷ s ∷ rest) h = absurd (ground (arith, h))

is_at-eq : (n : ℕ) (t : Option ℤ) → is_at n t ≡ true → t ≡ some (pos n)
unfolding ◌+ℤ◌
is_at-eq n none h = absurd (ground (arith, h))
is_at-eq n (some t) h = ground (arith, h)

from_gateway-eq : (i : Option String) → from_gateway i ≡ true → i ≡ some "gateway"
from_gateway-eq none h = absurd (ground (arith, h))
from_gateway-eq (some i) h = ground (arith, h, eq_iff i "gateway")

is_ada-eq : (c : TokenClaims) → is_ada c ≡ true → c ≡ ada
is_ada-eq c h = ground (
  arith,
  h,
  one_role-eq c.claims.roles,
  from_gateway-eq c.issuer,
  is_at-eq 5_000_000_000 c.issued_at,
  is_at-eq 15_000_000_000 c.expires_at,
  eq_iff c.claims.user_id "ada",
)

-- A time that is not before 1970, cut down to the second
to_second : ℤ → ℤ
to_second (pos n) = pos (n / 1_000_000_000 * 1_000_000_000)
to_second (negsuc n) = pos 0

abbrev library : Jwt
library = record {
  numeric_date = to_second;
  sign = λ secret c. if str_eq secret "s" && is_ada c then ok "ada-token" else err "unknown";
  parse = λ key now t. elim (key hmac) [
    | err e ↦ err e
    | ok k ↦
        if str_eq k "s" && (str_eq t "ada-token" && ltb_ℤ now (pos 15_000_000_000))
        then ok (true, ada)
        else err "unknown"
  ];
}

signed :
    (secret t : String) (c : TokenClaims)
    → library.sign secret c ≡ ok t
    → (secret ≡ "s") × (c ≡ ada) × (t ≡ "ada-token")
signed secret t c h = ground (arith, h, is_ada-eq c, eq_iff secret "s")

twice : (t : ℤ) → to_second (to_second t) ≡ to_second t
unfolding to_second
twice (pos n) = ground arith
twice (negsuc n) = refl

library-Faithful : Faithful library
library-Faithful = record {
  cuts = twice;
  not_empty = λ secret t c h. ap is_blank (signed secret t c h).2;
  decode = λ key t. elim (key hmac) [
    | err e ↦ err e
    | ok k ↦ if str_eq k "s" && str_eq t "ada-token" then ok ada else err "unknown"
  ];
  decodes = λ key secret t c h k i e.
      let s = signed secret t c h in
      ground (arith, s.0, s.1, s.2, k, eq_iff secret "s", eq_iff t "ada-token");
  fresh = λ key t c expiry now d e before. ground (arith, d, e, before);
  expired = λ key t c expiry now d e late. ("unknown", ground (arith, d, e, late));
}

program : Unit {0}
unfolding to_second generate_token validate_token key_for strip_bearer authenticate ◌+ℤ◌
program = tt

generated : generate_token library gateway "ada" ("admin" ∷ []) (pos 5_300_000_000) ≡ ok "ada-token"
unfolding program
generated = refl

behind_bearer : authenticate library gateway (pos 9) (some ("Bearer ada-token" ∷ [])) ≡ ok ada
unfolding program
behind_bearer = refl

validate_token-generate_token_example :
    let c = generated_claims library gateway "ada" ("admin" ∷ []) (pos 5_300_000_000) in
    let expiry = to_second (pos 5_300_000_000 +ℤ pos 10_600_000_000) in
    ((ltb_ℤ (pos 9_000_000_000) expiry ≡ true)
      × (validate_token library gateway (pos 9_000_000_000) "ada-token" ≡ ok c))
    ⊎ ((ltb_ℤ (pos 9_000_000_000) expiry ≡ false)
        × ((e : String) × (validate_token library gateway (pos 9_000_000_000) "ada-token"
              ≡ err (parse_failed e))))
validate_token-generate_token_example =
    validate_token-generate_token library gateway "ada" "ada-token" ("admin" ∷ [])
      (pos 5_300_000_000) (pos 9_000_000_000) library-Faithful generated
