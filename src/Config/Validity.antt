-- ===== src/Config/Validity.antt =====
-- Which configurations are valid, and which of those that are loaded.
use high_performance_event_s.Common.{
  ◌≡◌, ◌≢◌, refl, ◌⊎◌, inl, inr, ◌↔◌, true, false, String, List, [], ◌∷◌, map, length, ◌==◌, arith,
  eq_iff, Option-cases,
}
use high_performance_event_s.Common.Int.{pos, ◌≤ℤ◌}
use high_performance_event_s.Common.Outcome.{ok}
use high_performance_event_s.Config.{
  Environment, Parsers, Config, get_string_slice_env, load, validate_server, validate_kafka,
  validate_auth, validate_rate_limit, validate_logging, validate,
}

-- What a valid configuration has.
pub record IsValid (c : Config) : Type 0 where
  pub grpc_port : (pos 1 ≤ℤ c.server.grpc_port) × (c.server.grpc_port ≤ℤ pos 65_535)
  pub http_port : (pos 1 ≤ℤ c.server.http_port) × (c.server.http_port ≤ℤ pos 65_535)
  pub brokers : c.kafka.brokers ≢ []
  pub topic : c.kafka.topic ≢ ""
  pub group : c.kafka.group_id ≢ ""
  pub partitions : pos 1 ≤ℤ c.kafka.num_partitions
  pub secret : c.auth.enabled ≡ true → c.auth.jwt_secret ≢ "default-secret-change-in-production"
  pub rate : pos 1 ≤ℤ c.rate_limit.requests_per_second
  pub level :
      (c.log.level ≡ "debug")
      ⊎ ((c.log.level ≡ "info") ⊎ ((c.log.level ≡ "warn") ⊎ (c.log.level ≡ "error")))

length_none : (l : List String) → (length l == 0) ≡ false → l ≢ []
length_none l h e = ground (arith, h, e)

length_some : (l : List String) → l ≢ [] → (length l == 0) ≡ false
length_some [] h = absurd (h refl)
length_some (x ∷ l) h = ground arith

validate-IsValid : (c : Config) → validate c ≡ ok tt → IsValid c
unfolding validate validate_server validate_kafka validate_auth validate_rate_limit validate_logging
validate-IsValid c h = record {
  grpc_port = ground (arith, h);
  http_port = ground (arith, h);
  brokers = length_none c.kafka.brokers (ground (arith, h));
  topic = λ e. ground (arith, h, e, eq_iff c.kafka.topic "");
  group = λ e. ground (arith, h, e, eq_iff c.kafka.group_id "");
  partitions = ground (arith, h);
  secret = λ a e.
      ground (arith, h, a, e, eq_iff c.auth.jwt_secret "default-secret-change-in-production");
  rate = ground (arith, h);
  level = ground (
    arith,
    h,
    eq_iff c.log.level "debug",
    eq_iff c.log.level "info",
    eq_iff c.log.level "warn",
    eq_iff c.log.level "error",
  );
}

server_sound : (c : Config) → IsValid c → validate_server c ≡ ok tt
unfolding validate_server
server_sound c v = ground (arith, v.grpc_port, v.http_port)

kafka_sound : (c : Config) → IsValid c → validate_kafka c ≡ ok tt
unfolding validate_kafka
kafka_sound c v = ground (
  arith,
  length_some c.kafka.brokers v.brokers,
  v.topic,
  v.group,
  v.partitions,
  eq_iff c.kafka.topic "",
  eq_iff c.kafka.group_id "",
)

auth_sound : (c : Config) → IsValid c → validate_auth c ≡ ok tt
unfolding validate_auth
auth_sound c v =
    ground (arith, v.secret, eq_iff c.auth.jwt_secret "default-secret-change-in-production")

rate_limit_sound : (c : Config) → IsValid c → validate_rate_limit c ≡ ok tt
unfolding validate_rate_limit
rate_limit_sound c v = ground (arith, v.rate)

logging_sound : (c : Config) → IsValid c → validate_logging c ≡ ok tt
unfolding validate_logging
logging_sound c v = ground (
  arith,
  v.level,
  eq_iff c.log.level "debug",
  eq_iff c.log.level "info",
  eq_iff c.log.level "warn",
  eq_iff c.log.level "error",
)

validate_sound : (c : Config) → IsValid c → validate c ≡ ok tt
unfolding validate
validate_sound c v = ground (
  arith,
  server_sound c v,
  kafka_sound c v,
  auth_sound c v,
  rate_limit_sound c v,
  logging_sound c v,
)

-- `Validate` accepts a configuration exactly where both ports are between 1 and 65535, there is a broker,
-- a topic and a group, at least one partition and one request per second, the secret is not the default one
-- if authentication is on, and the level of the log is one of the four.
pub validate_iff : (c : Config) → (validate c ≡ ok tt) ↔ IsValid c
validate_iff c = (validate-IsValid c, validate_sound c)

converted_some : (trim : String → String) (l : List String) → l ≢ [] → map trim l ≢ []
converted_some trim [] h = absurd (h refl)
converted_some trim (x ∷ l) h = λ e. ground (arith, e)

-- Where splitting a text never gives no part at all, as `strings.Split` never does, a loaded configuration
-- has a broker, whatever the environment says: also where `KAFKA_BROKERS` is set to nothing.
pub load-brokers :
    (P : Parsers) (env : Environment)
    → ((s : String) → P.split_commas s ≢ [])
    → (load P env).kafka.brokers ≢ []
unfolding load get_string_slice_env
load-brokers P env parts = elim (Option-cases (env "KAFKA_BROKERS")) [
  | inl h ↦ λ e. ground (arith, h, e)
  | inr (v, h) ↦
      λ e. converted_some P.trim_space (P.split_commas v) (parts v) (ground (arith, h, e))
]
