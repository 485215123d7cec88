-- ===== src/RustGateway/Config.antt =====
-- rust-gateway/src/config.rs: the configuration records, the functions that serde calls for a
-- missing field, and the `Default` values that `from_env` falls back on. A `#[derive(Default)]`
-- gives 0, false, "" and `None`, whatever the serde attributes say.
use app_gate.Base.{ℕ, String, Bool, true, false, Option, none}
use app_gate.Base.Result.{Result, unwrap_or_else}

pub record TlsConfig : Type 0 where
  pub enabled : Bool
  pub cert_path : Option String
  pub key_path : Option String
  pub min_version : Option String

pub record JwtConfig : Type 0 where
  pub enabled : Bool
  pub jwks_url : Option String
  pub issuer : Option String
  pub audience : Option String
  pub key_path : Option String

pub record RateLimitConfig : Type 0 where
  pub enabled : Bool
  pub requests_per_second : ℕ
  pub burst_size : ℕ
  pub window_secs : ℕ

pub record UpstreamConfig : Type 0 where
  pub default_url : String
  pub connect_timeout_ms : Option ℕ
  pub read_timeout_ms : Option ℕ
  pub keepalive_duration_secs : Option ℕ
  pub max_connections : Option ℕ

pub record AuditConfig : Type 0 where
  pub endpoint : String

pub record CacheConfig : Type 0 where
  pub enabled : Bool
  pub ttl_secs : Option ℕ
  pub max_size : Option ℕ

pub record CircuitBreakerConfig : Type 0 where
  pub failure_threshold : ℕ
  pub recovery_timeout_ms : ℕ
  pub half_open_max_calls : ℕ

pub record GatewayConfig : Type 0 where
  pub bind_addr : String
  pub port : ℕ
  pub tls : TlsConfig
  pub jwt : JwtConfig
  pub rate_limit : RateLimitConfig
  pub upstream : UpstreamConfig
  pub audit : AuditConfig
  pub cache : CacheConfig
  pub circuit_breaker : CircuitBreakerConfig
  pub log_level : String
  pub control_plane_url : String
  pub environment : String

-- The functions of the serde attributes.
abbrev pub default_bind : String
default_bind = "0.0.0.0"

abbrev pub default_port : ℕ
default_port = 8080

abbrev pub default_log_level : String
default_log_level = "info"

abbrev pub default_control_plane_url : String
default_control_plane_url = "http://appgate-control-plane:8080"

abbrev pub default_environment : String
default_environment = "production"

abbrev pub default_true : Bool
default_true = true

abbrev pub default_rps : ℕ
default_rps = 100

abbrev pub default_burst : ℕ
default_burst = 150

abbrev pub default_window : ℕ
default_window = 60

abbrev pub default_upstream_url : String
default_upstream_url = ""

abbrev pub default_audit_endpoint : String
default_audit_endpoint = "/v1/audit/batch"

abbrev pub default_failure_threshold : ℕ
default_failure_threshold = 5

abbrev pub default_recovery_timeout_ms : ℕ
default_recovery_timeout_ms = 30000

abbrev pub default_half_open_max_calls : ℕ
default_half_open_max_calls = 3

-- The derived `Default` of each part.
abbrev pub default_tls : TlsConfig
default_tls = record { enabled = false; cert_path = none; key_path = none; min_version = none }

abbrev pub default_jwt : JwtConfig
default_jwt = record {
  enabled = false;
  jwks_url = none;
  issuer = none;
  audience = none;
  key_path = none;
}

abbrev pub default_rate_limit : RateLimitConfig
default_rate_limit = record {
  enabled = false;
  requests_per_second = 0;
  burst_size = 0;
  window_secs = 0;
}

abbrev pub default_upstream : UpstreamConfig
default_upstream = record {
  default_url = "";
  connect_timeout_ms = none;
  read_timeout_ms = none;
  keepalive_duration_secs = none;
  max_connections = none;
}

abbrev pub default_audit : AuditConfig
default_audit = record { endpoint = "" }

abbrev pub default_cache : CacheConfig
default_cache = record { enabled = false; ttl_secs = none; max_size = none }

abbrev pub default_circuit_breaker : CircuitBreakerConfig
default_circuit_breaker = record {
  failure_threshold = 0;
  recovery_timeout_ms = 0;
  half_open_max_calls = 0;
}

-- `impl Default for GatewayConfig`
abbrev pub default_gateway : GatewayConfig
default_gateway = record {
  bind_addr = default_bind;
  port = default_port;
  tls = default_tls;
  jwt = default_jwt;
  rate_limit = default_rate_limit;
  upstream = default_upstream;
  audit = default_audit;
  cache = default_cache;
  circuit_breaker = default_circuit_breaker;
  log_level = default_log_level;
  control_plane_url = default_control_plane_url;
  environment = default_environment;
}

-- What serde gives a breaker section whose fields are all missing.
abbrev pub circuit_breaker_of_serde : CircuitBreakerConfig
circuit_breaker_of_serde = record {
  failure_threshold = default_failure_threshold;
  recovery_timeout_ms = default_recovery_timeout_ms;
  half_open_max_calls = default_half_open_max_calls;
}

-- `from_env`, with the outcome of `envy::from_env` as its argument.
unfoldable pub from_env {ℓ} : {E : Type ℓ} → Result GatewayConfig E → GatewayConfig
from_env parsed = unwrap_or_else (λ _. default_gateway) parsed
