-- ===== src/RustGateway/Health.antt =====
-- rust-gateway/src/health.rs: the table of the upstreams and the background checks of it. The time
-- is an argument. One check is one turn of the inner loop, with the outcome of its request: the
-- latency of a success, or nothing.
pub mod Refinement
pub mod Round
pub mod Rounds
pub mod Threshold
mod Tests
use app_gate.Base.{
  ℕ, suc, ◌+◌, String, Bool, true, false, Option, none, some, List, [], ◌∷◌, ◌==◌, ◌+++◌, leb,
  trim_end_matches, if◌then◌else◌, map, filter,
}
use app_gate.Base.Assoc.{lookup, insert, modify, keys}
use app_gate.Base.Reqwest.{ClientSettings}
use app_gate.Base.Words.{u32}
use app_gate.RustGateway.Config.{GatewayConfig, UpstreamConfig}

pub record HealthStatus : Type 0 where
  pub healthy : Bool
  pub last_check : ℕ
  pub latency_ms : ℕ
  pub consecutive_failures : ℕ

abbrev pub Upstreams : Type 0
Upstreams = List (String × HealthStatus)

abbrev pub registered : ℕ → HealthStatus
registered now = record {
  healthy = true;
  last_check = now;
  latency_ms = 0;
  consecutive_failures = 0;
}

unfoldable pub register : ℕ → String → Upstreams → Upstreams
register now name upstreams = insert name (registered now) upstreams

-- `HealthChecker::new`, once the task it starts has run.
unfoldable pub new : ℕ → GatewayConfig → Upstreams
new now config =
    if config.upstream.default_url == ""
    then []
    else insert config.upstream.default_url (registered now) []

-- The client of `HealthChecker::new`.
abbrev pub client_settings : ClientSettings
client_settings = record {
  timeout = some 5000;
  connect_timeout = none;
  pool_max_idle_per_host = none;
  pool_idle_timeout = none;
  http2_prior_knowledge = false;
}

abbrev pub healthy_or_unknown : Option HealthStatus → Bool
healthy_or_unknown none = true
healthy_or_unknown (some status) = status.healthy

unfoldable pub is_healthy : String → Upstreams → Bool
is_healthy name upstreams = healthy_or_unknown (lookup name upstreams)

unfoldable pub all_healthy : Upstreams → List String
all_healthy upstreams = map (λ e. e.0) (filter (λ e. e.1.healthy) upstreams)

unfoldable pub check_url : String → String
check_url name = trim_end_matches b'/' name +++ "/healthz"

-- What an outcome does to the entry it is about.
unfoldable pub checked : Option ℕ → HealthStatus → HealthStatus
checked (some elapsed) status = record status {
  healthy = true;
  latency_ms = elapsed;
  consecutive_failures = 0;
}
checked none status =
    let failures = u32 (status.consecutive_failures + 1) in
    if leb 3 failures
    then record status { healthy = false; consecutive_failures = failures }
    else record status { consecutive_failures = failures }

unfoldable pub check : String → Option ℕ → Upstreams → Upstreams
unfolding checked
check name outcome upstreams = modify name (checked outcome) upstreams
