-- ===== src/Config.antt =====
-- internal/config/config.go: the settings of all services, read from environment variables.
-- `env` stands for `os.Getenv`, which gives "" for a variable that is not set. `strconv.Atoi`,
-- `strings.ToLower` and `strings.Split` at commas are parameters.
pub mod Defaults
use webhook_mind.Prelude.{Bool, List, Option, String, if◌then◌else◌, none, pos, some, str_eq, ℤ}

pub data Level : Type 0 where
  level_debug level_info level_warn level_error : Level

pub record IngestionConfig : Type 0 where
  pub port : ℤ
  pub max_body_bytes : ℤ
  pub require_signature : Bool
  pub rate_limit_per_ip : ℤ
  pub rate_limit_per_source : ℤ

pub record OrchestratorConfig : Type 0 where
  pub workers : ℤ
  pub max_workers : ℤ
  pub queue_scale_threshold : ℤ

pub record DeliveryConfig : Type 0 where
  pub workers : ℤ
  pub max_workers : ℤ
  pub max_retries : ℤ

pub record RedisConfig : Type 0 where
  pub addr : String
  pub password : String
  pub db : ℤ

pub record ScyllaConfig : Type 0 where
  pub hosts : List String
  pub keyspace : String

pub record PostgresConfig : Type 0 where
  pub dsn : String

pub record MinioConfig : Type 0 where
  pub endpoint : String
  pub access_key : String
  pub secret_key : String
  pub bucket : String
  pub use_ssl : Bool
  pub internal_endpoint : String

pub record ExtractorConfig : Type 0 where
  pub backend : String
  pub fallback : String
  pub grpc_addr : String
  pub grpc_timeout_seconds : ℤ
  pub anthropic_api_key : String
  pub anthropic_model : String
  pub openai_api_key : String
  pub openai_model : String
  pub cloud_provider : String
  pub cloud_timeout_seconds : ℤ

pub record FileConfig : Type 0 where
  pub max_size_bytes : ℤ
  pub download_timeout_seconds : ℤ

pub record ExtractorBridgeConfig : Type 0 where
  pub workers : ℤ
  pub max_workers : ℤ
  pub queue_scale_threshold : ℤ

pub record SchemaConfig : Type 0 where
  pub min_samples : ℤ
  pub drift_alert_enabled : Bool

pub record ApiConfig : Type 0 where
  pub port : ℤ

pub record ReplayConfig : Type 0 where
  pub max_events_per_session : ℤ

pub record SseConfig : Type 0 where
  pub port : ℤ

pub record Config : Type 0 where
  pub ingestion : IngestionConfig
  pub orchestrator : OrchestratorConfig
  pub delivery : DeliveryConfig
  pub extractor_bridge : ExtractorBridgeConfig
  pub redis : RedisConfig
  pub scylla : ScyllaConfig
  pub postgres : PostgresConfig
  pub minio : MinioConfig
  pub extractor : ExtractorConfig
  pub file : FileConfig
  pub schema : SchemaConfig
  pub api : ApiConfig
  pub replay : ReplayConfig
  pub sse : SseConfig
  pub log_level : Level

-- `envOrDefault`
unfoldable pub env_or_default : (String → String) → String → String → String
env_or_default env key fallback = if str_eq (env key) "" then fallback else env key

module _ (atoi : String → Option ℤ) (to_lower : String → String)
    (split_commas : String → List String) where
  abbrev or_fallback : ℤ → Option ℤ → ℤ
  or_fallback fallback none = fallback
  or_fallback fallback (some n) = n

  -- `envOrDefaultInt`
  unfoldable pub env_or_default_int : (String → String) → String → ℤ → ℤ
  env_or_default_int env key fallback =
      if str_eq (env key) "" then fallback else or_fallback fallback (atoi (env key))

  -- `parseLogLevel`
  unfoldable pub parse_log_level : String → Level
  parse_log_level s =
      if str_eq (to_lower s) "debug"
      then level_debug
      else if str_eq (to_lower s) "warn"
      then level_warn
      else if str_eq (to_lower s) "error"
      then level_error
      else level_info

  -- The settings, once the two that are required were found.
  unfoldable pub settings : (String → String) → String → String → Config
  unfolding env_or_default env_or_default_int parse_log_level
  settings env postgres_dsn redis_addr = record {
    ingestion = record {
      port = env_or_default_int env "INGESTION_PORT" (pos 8080);
      max_body_bytes = env_or_default_int env "INGESTION_MAX_BODY_BYTES" (pos 10485760);
      require_signature = str_eq (env_or_default env "INGESTION_REQUIRE_SIGNATURE" "false") "true";
      rate_limit_per_ip = env_or_default_int env "INGESTION_RATE_LIMIT_PER_IP" (pos 10);
      rate_limit_per_source = env_or_default_int env "INGESTION_RATE_LIMIT_PER_SOURCE" (pos 300);
    };
    orchestrator = record {
      workers = env_or_default_int env "ORCHESTRATOR_WORKERS" (pos 10);
      max_workers = env_or_default_int env "ORCHESTRATOR_MAX_WORKERS" (pos 50);
      queue_scale_threshold =
          env_or_default_int env "ORCHESTRATOR_QUEUE_SCALE_THRESHOLD" (pos 1000);
    };
    delivery = record {
      workers = env_or_default_int env "DELIVERY_WORKERS" (pos 20);
      max_workers = env_or_default_int env "DELIVERY_MAX_WORKERS" (pos 100);
      max_retries = env_or_default_int env "DELIVERY_MAX_RETRIES" (pos 4);
    };
    redis = record {
      addr = redis_addr;
      password = env "REDIS_PASSWORD";
      db = env_or_default_int env "REDIS_DB" (pos 0);
    };
    scylla = record {
      hosts = split_commas (env_or_default env "SCYLLA_HOSTS" "127.0.0.1");
      keyspace = env_or_default env "SCYLLA_KEYSPACE" "webhookmind";
    };
    postgres = record { dsn = postgres_dsn };
    minio = record {
      endpoint = env_or_default env "MINIO_ENDPOINT" "127.0.0.1:9000";
      access_key = env_or_default env "MINIO_ACCESS_KEY" "webhookmind";
      secret_key = env_or_default env "MINIO_SECRET_KEY" "webhookmind123";
      bucket = env_or_default env "MINIO_BUCKET" "webhookmind-files";
      use_ssl = str_eq (env_or_default env "MINIO_USE_SSL" "false") "true";
      internal_endpoint = env_or_default env "MINIO_INTERNAL_ENDPOINT" "host.docker.internal:9000";
    };
    extractor = record {
      backend = env_or_default env "EXTRACTOR_BACKEND" "local";
      fallback = env_or_default env "EXTRACTOR_FALLBACK" "none";
      grpc_addr = env_or_default env "EXTRACTOR_GRPC_ADDR" "127.0.0.1:50051";
      grpc_timeout_seconds = env_or_default_int env "EXTRACTOR_GRPC_TIMEOUT_SECONDS" (pos 120);
      anthropic_api_key = env "ANTHROPIC_API_KEY";
      anthropic_model = env_or_default env "ANTHROPIC_MODEL" "claude-haiku-4-5";
      openai_api_key = env "OPENAI_API_KEY";
      openai_model = env_or_default env "OPENAI_MODEL" "gpt-4.1-mini";
      cloud_provider = env_or_default env "CLOUD_PROVIDER" "anthropic";
      cloud_timeout_seconds = env_or_default_int env "CLOUD_EXTRACTOR_TIMEOUT_SECONDS" (pos 60);
    };
    file = record {
      max_size_bytes = env_or_default_int env "FILE_MAX_SIZE_BYTES" (pos 52428800);
      download_timeout_seconds = env_or_default_int env "FILE_DOWNLOAD_TIMEOUT_SECONDS" (pos 30);
    };
    extractor_bridge = record {
      workers = env_or_default_int env "EXTRACTOR_BRIDGE_WORKERS" (pos 10);
      max_workers = env_or_default_int env "EXTRACTOR_BRIDGE_MAX_WORKERS" (pos 50);
      queue_scale_threshold =
          env_or_default_int env "EXTRACTOR_BRIDGE_QUEUE_SCALE_THRESHOLD" (pos 1000);
    };
    schema = record {
      min_samples = env_or_default_int env "SCHEMA_INFERENCE_MIN_SAMPLES" (pos 10);
      drift_alert_enabled = str_eq (env_or_default env "SCHEMA_DRIFT_ALERT_ENABLED" "true") "true";
    };
    api = record { port = env_or_default_int env "API_PORT" (pos 8082) };
    replay = record {
      max_events_per_session = env_or_default_int env "REPLAY_MAX_EVENTS_PER_SESSION" (pos 100000);
    };
    sse = record { port = env_or_default_int env "SSE_PORT" (pos 8081) };
    log_level = parse_log_level (env_or_default env "LOG_LEVEL" "info");
  }

  -- `Load`; `none` is its error.
  unfoldable pub load : (String → String) → Option Config
  unfolding settings
  load env =
      if str_eq (env "POSTGRES_DSN") ""
      then none
      else if str_eq (env "REDIS_ADDR") ""
      then none
      else some (settings env (env "POSTGRES_DSN") (env "REDIS_ADDR"))
