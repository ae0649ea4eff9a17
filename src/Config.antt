-- ===== src/Config.antt =====
-- The configuration (internal/infrastructure/config/config.go), loaded from environment variables. A
-- duration is in nanoseconds. The parsers of strconv, time and strings are the parameter `Parsers`.
pub mod Validity
mod Tests
use high_performance_event_s.Common.{
  ℕ, ◌-◌, ◌%◌, ◌*◌, Bool, true, false, ◌&&◌, ◌||◌, not, String, List, [], ◌∷◌, map, Option, none,
  some, length, ltb, ◌==◌, if◌then◌else◌, is_blank, str_eq,
}
use high_performance_event_s.Common.Int.{ℤ, pos, negsuc, ltb_ℤ, leb_ℤ}
use high_performance_event_s.Common.Outcome.{Outcome, ok, err, ◌>>◌, reject_if}

-- What `os.LookupEnv` finds
abbrev pub Environment : Type 0
Environment = String → Option String

-- `strconv.Atoi`, `time.ParseDuration`, `strings.Split` at commas and `strings.TrimSpace`; `none` is an
-- error.
pub record Parsers : Type 0 where
  pub atoi : String → Option ℤ
  pub parse_duration : String → Option ℤ
  pub split_commas : String → List String
  pub trim_space : String → String

-- `ServerConfig`
pub record ServerConfig : Type 0 where
  pub grpc_port : ℤ
  pub http_port : ℤ

-- `KafkaConfig`
pub record KafkaConfig : Type 0 where
  pub brokers : List String
  pub topic : String
  pub group_id : String
  pub num_partitions : ℤ
  pub replication_factor : ℤ
  pub read_timeout : ℤ
  pub write_timeout : ℤ
  pub dial_timeout : ℤ
  pub commit_interval : ℤ
  pub session_timeout : ℤ

-- `AuthConfig`
pub record AuthConfig : Type 0 where
  pub enabled : Bool
  pub jwt_secret : String
  pub issuer : String
  pub token_expiry : ℤ
  pub allowed_issuer : String

-- `RateLimitConfig`
pub record RateLimitConfig : Type 0 where
  pub enabled : Bool
  pub requests_per_second : ℤ
  pub burst_size : ℤ
  pub cleanup_interval : ℤ
  pub stale_threshold : ℤ

-- `LogConfig`
pub record LogConfig : Type 0 where
  pub level : String
  pub format : String
  pub output : String

-- `MetricsConfig`
pub record MetricsConfig : Type 0 where
  pub enabled : Bool
  pub port : ℤ
  pub path : String

-- `ReplayConfig`
pub record ReplayConfig : Type 0 where
  pub max_duration : ℤ
  pub batch_size : ℤ
  pub rate_limit : ℤ
  pub max_retention : ℤ

-- `SchemaConfig`
pub record SchemaConfig : Type 0 where
  pub validation_enabled : Bool
  pub registry_url : String
  pub cache_ttl : ℤ

-- `Config`
pub record Config : Type 0 where
  pub server : ServerConfig
  pub kafka : KafkaConfig
  pub auth : AuthConfig
  pub rate_limit : RateLimitConfig
  pub log : LogConfig
  pub metrics : MetricsConfig
  pub replay : ReplayConfig
  pub schema : SchemaConfig
  pub environment : String

-- A signed integer cut to a word of `modulus` values, as `int32` and `int16` do.
unfoldable pub to_word : ℕ → ℤ → ℤ
to_word modulus n =
    let r : ℕ = elim n [ pos k ↦ k % modulus | negsuc k ↦ modulus - 1 - k % modulus ] in
    if ltb (2 * r) modulus then pos r else negsuc (modulus - 1 - r)

-- `n` seconds
abbrev pub seconds : ℕ → ℤ
seconds n = pos (n * 1_000_000_000)

module _ (P : Parsers) (env : Environment) where
  -- `getStringEnv`
  unfoldable pub get_string_env : String → String → String
  get_string_env key default_val = elim (env key) [ some v ↦ v | none ↦ default_val ]

  -- `getIntEnv`
  unfoldable pub get_int_env : String → ℤ → ℤ
  get_int_env key default_val = elim (env key) [
    | none ↦ default_val
    | some v ↦ elim (P.atoi v) [ some n ↦ n | none ↦ default_val ]
  ]

  -- `getBoolEnv`
  unfoldable pub get_bool_env : String → Bool → Bool
  get_bool_env key default_val = elim (env key) [
    | none ↦ default_val
    | some v ↦ str_eq v "true" || (str_eq v "1" || str_eq v "yes")
  ]

  -- `getDurationEnv`
  unfoldable pub get_duration_env : String → ℤ → ℤ
  get_duration_env key default_val = elim (env key) [
    | none ↦ default_val
    | some v ↦ elim (P.parse_duration v) [ some n ↦ n | none ↦ default_val ]
  ]

  -- `getStringSliceEnv`
  unfoldable pub get_string_slice_env : String → List String → List String
  get_string_slice_env key default_val = elim (env key) [
    | none ↦ default_val
    | some v ↦ map P.trim_space (P.split_commas v)
  ]

  -- `Load`
  unfoldable pub load : Config
  unfolding get_string_env get_int_env get_bool_env get_duration_env get_string_slice_env to_word
  load = record {
    server = record {
      grpc_port = get_int_env "GRPC_PORT" (pos 50_051);
      http_port = get_int_env "HTTP_PORT" (pos 8_080);
    };
    kafka = record {
      brokers = get_string_slice_env "KAFKA_BROKERS" ("localhost:9092" ∷ []);
      topic = get_string_env "KAFKA_TOPIC" "events";
      group_id = get_string_env "KAFKA_GROUP_ID" "event-gateway";
      num_partitions = to_word 4_294_967_296 (get_int_env "KAFKA_NUM_PARTITIONS" (pos 3));
      replication_factor = to_word 65_536 (get_int_env "KAFKA_REPLICATION_FACTOR" (pos 1));
      read_timeout = get_duration_env "KAFKA_READ_TIMEOUT" (seconds 10);
      write_timeout = get_duration_env "KAFKA_WRITE_TIMEOUT" (seconds 10);
      dial_timeout = get_duration_env "KAFKA_DIAL_TIMEOUT" (seconds 10);
      commit_interval = get_duration_env "KAFKA_COMMIT_INTERVAL" (seconds 1);
      session_timeout = get_duration_env "KAFKA_SESSION_TIMEOUT" (seconds 10);
    };
    auth = record {
      enabled = get_bool_env "AUTH_ENABLED" false;
      jwt_secret = get_string_env "JWT_SECRET" "default-secret-change-in-production";
      issuer = get_string_env "JWT_ISSUER" "event-gateway";
      token_expiry = get_duration_env "JWT_TOKEN_EXPIRY" (seconds 86_400);
      allowed_issuer = get_string_env "JWT_ALLOWED_ISSUER" "event-gateway";
    };
    rate_limit = record {
      enabled = get_bool_env "RATE_LIMIT_ENABLED" true;
      requests_per_second = get_int_env "RATE_LIMIT_RPS" (pos 1_000);
      burst_size = get_int_env "RATE_LIMIT_BURST" (pos 100);
      cleanup_interval = get_duration_env "RATE_LIMIT_CLEANUP_INTERVAL" (seconds 300);
      stale_threshold = get_duration_env "RATE_LIMIT_STALE_THRESHOLD" (seconds 600);
    };
    log = record {
      level = get_string_env "LOG_LEVEL" "info";
      format = get_string_env "LOG_FORMAT" "json";
      output = get_string_env "LOG_OUTPUT" "stdout";
    };
    metrics = record {
      enabled = get_bool_env "METRICS_ENABLED" true;
      port = get_int_env "METRICS_PORT" (pos 9_090);
      path = get_string_env "METRICS_PATH" "/metrics";
    };
    replay = record {
      max_duration = get_duration_env "REPLAY_MAX_DURATION" (seconds 604_800);
      batch_size = get_int_env "REPLAY_BATCH_SIZE" (pos 1_000);
      rate_limit = get_int_env "REPLAY_RATE_LIMIT" (pos 1_000);
      max_retention = get_duration_env "REPLAY_MAX_RETENTION" (seconds 604_800);
    };
    schema = record {
      validation_enabled = get_bool_env "SCHEMA_VALIDATION_ENABLED" false;
      registry_url = get_string_env "SCHEMA_REGISTRY_URL" "http://localhost:8081";
      cache_ttl = get_duration_env "SCHEMA_CACHE_TTL" (seconds 3_600);
    };
    environment = get_string_env "ENVIRONMENT" "development";
  }

pub data ConfigError : Type 0 where
  invalid_grpc_port invalid_http_port no_broker no_topic no_group few_partitions : ConfigError
  default_secret low_rate invalid_level : ConfigError

-- `port <= 0 || port > 65535`
abbrev pub is_bad_port : ℤ → Bool
is_bad_port p = leb_ℤ p (pos 0) || ltb_ℤ (pos 65_535) p

-- `validateServer`
unfoldable pub validate_server : Config → Outcome ConfigError (Unit {0})
validate_server c = do
  reject_if (is_bad_port c.server.grpc_port) invalid_grpc_port
  reject_if (is_bad_port c.server.http_port) invalid_http_port
  ok tt

-- `validateKafka`
unfoldable pub validate_kafka : Config → Outcome ConfigError (Unit {0})
validate_kafka c = do
  reject_if (length c.kafka.brokers == 0) no_broker
  reject_if (is_blank c.kafka.topic) no_topic
  reject_if (is_blank c.kafka.group_id) no_group
  reject_if (ltb_ℤ c.kafka.num_partitions (pos 1)) few_partitions
  ok tt

-- `validateAuth`
unfoldable pub validate_auth : Config → Outcome ConfigError (Unit {0})
validate_auth c = do
  reject_if (c.auth.enabled && str_eq c.auth.jwt_secret "default-secret-change-in-production")
      default_secret
  ok tt

-- `validateRateLimit`
unfoldable pub validate_rate_limit : Config → Outcome ConfigError (Unit {0})
validate_rate_limit c = do
  reject_if (ltb_ℤ c.rate_limit.requests_per_second (pos 1)) low_rate
  ok tt

-- `validateLogging`
unfoldable pub validate_logging : Config → Outcome ConfigError (Unit {0})
validate_logging c = do
  reject_if
      (not (str_eq c.log.level "debug")
        && (not (str_eq c.log.level "info")
            && (not (str_eq c.log.level "warn") && not (str_eq c.log.level "error"))))
      invalid_level
  ok tt

-- `Validate`
unfoldable pub validate : Config → Outcome ConfigError (Unit {0})
unfolding validate_server validate_kafka validate_auth validate_rate_limit validate_logging
validate c = do
  validate_server c
  validate_kafka c
  validate_auth c
  validate_rate_limit c
  validate_logging c
