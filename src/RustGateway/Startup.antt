-- ===== src/RustGateway/Startup.antt =====
-- rust-gateway/src/main.rs: the state that `main` puts together, and what it waits for. The parts
-- of the state without data are left out: the policy engine, the SSRF guard and the metrics. The environment, the files and the third-party crates are parameters.
pub mod Initial
pub mod Signals
pub mod Serving
pub mod Unbound
mod Tests
use app_gate.Base.{
  ℕ, ◌+◌, String, Bool, true, false, Option, none, some, List, [], ◌∷◌, leb, if◌then◌else◌,
}
use app_gate.Base.Governor.{Governor}
use app_gate.Base.Http.{Bytes, Send}
use app_gate.Base.Jwt.{Jsonwebtoken}
use app_gate.Base.Moka.{Moka}
use app_gate.Base.Reqwest.{ClientSettings, Reqwest}
use app_gate.Base.Result.{Result, ok, err, map_err, unwrap_or_else, ◌>>=◌}
use app_gate.RustGateway.Audit
use app_gate.RustGateway.Audit.{AuditLogger}
use app_gate.RustGateway.Cache
use app_gate.RustGateway.Cache.{CachedResponse, ResponseCache}
use app_gate.RustGateway.CircuitBreaker.Registry.{CircuitBreakerRegistry, new_registry}
use app_gate.RustGateway.Config.{GatewayConfig, from_env}
use app_gate.RustGateway.Health
use app_gate.RustGateway.Health.{Upstreams}
use app_gate.RustGateway.Jwt
use app_gate.RustGateway.Jwt.{JwtValidator}
use app_gate.RustGateway.Proxy
use app_gate.RustGateway.RateLimit.{Redis}
use app_gate.RustGateway.RateLimit.Service
use app_gate.RustGateway.RateLimit.Service.{RateLimiterService, new_local}
use app_gate.RustGateway.Router
use app_gate.RustGateway.Router.{Router}

-- Keys of type `K`, a Redis store `S`, a limiter `L`, a cache `M` and audit events `A`.
pub record AppState (K S L M A : Type 0) : Type 0 where
  pub config : GatewayConfig
  pub jwt_validator : JwtValidator K
  pub rate_limiter : RateLimiterService S L
  pub audit_logger : AuditLogger A
  pub router : Router
  pub cache : ResponseCache M
  pub circuit_breaker : CircuitBreakerRegistry
  pub health_checker : Upstreams
  pub proxy_client : Send

-- How `main` ends before its state stands.
pub data Stop : Type 0 where
  exit_code : ℕ → Stop
  panicked : Stop

module _ {K S L M : Type 0} (jwt : Jsonwebtoken K) (read : String → Result Bytes String)
    (redis : Redis S) (governor : Governor L) (connect : String → Result S String)
    (moka : Moka M CachedResponse) (reqwest : Reqwest) where
  -- The limiter of a service without an address, or the local one if that fails.
  unfoldable pub init_rate_limiter : RateLimiterService S L
  init_rate_limiter =
      unwrap_or_else (λ e. new_local redis governor) (Service.new redis governor connect none)

  abbrev pub initial :
      {A : Type 0} → ℕ → GatewayConfig → Option String → JwtValidator K → Send → AppState K S L M A
  initial now cfg route_env validator client = record {
    config = cfg;
    jwt_validator = validator;
    rate_limiter = init_rate_limiter;
    audit_logger = Audit.new;
    router = Router.new cfg route_env;
    cache = Cache.new moka cfg;
    circuit_breaker = new_registry cfg.circuit_breaker;
    health_checker = Health.new now cfg;
    proxy_client = client;
  }

  -- A client, or the panic of its `.expect(…)` or `.unwrap()`.
  abbrev pub built : ClientSettings → Result Send Stop
  built settings = map_err (λ e. panicked) (reqwest.build settings)

  -- `main` up to the state. `parsed` is what the environment gives, `route_env` the value of
  -- `APPGATE_ROUTES`. The health checker, the router and the proxy build a client each.
  unfoldable pub start_up :
      {A E : Type 0} → ℕ → Result GatewayConfig E → Option String → Result (AppState K S L M A) Stop
  start_up now parsed route_env =
      let cfg = from_env parsed in
      map_err (λ e. exit_code 1) (Jwt.new jwt read cfg.jwt) >>= λ validator.
      built Health.client_settings >>= λ checking.
      built (Router.client_settings cfg.upstream) >>= λ routing.
      built Proxy.settings >>= λ client. ok (initial now cfg route_env validator client)

-- What `main` waits for once the server runs: a signal, then the end of the server or 30 seconds.
pub data Phase : Type 0 where
  waiting : Phase
  draining : ℕ → Phase
  exited : Bool → Phase

-- `exited true` is a shutdown in time. `server` is what the task of the server ended with.
pub record Process : Type 0 where
  pub phase : Phase
  pub server : Option (Result (Unit {0}) String)

abbrev pub started : Process
started = record { phase = waiting; server = none }

pub data Event : Type 0 where
  server_ended : Result (Unit {0}) String → Event
  signalled : ℕ → Event
  clock : ℕ → Event

abbrev pub on_server_ended : Phase → Process → Process
on_server_ended waiting p = p
on_server_ended (draining since) p = record p { phase = exited true }
on_server_ended (exited in_time) p = p

-- `tokio::time::timeout` of a task that has ended answers at once.
abbrev pub drain_from : ℕ → Option (Result (Unit {0}) String) → Phase
drain_from now none = draining now
drain_from now (some r) = exited true

abbrev pub on_signalled : ℕ → Phase → Process → Process
on_signalled now waiting p = record p { phase = drain_from now p.server }
on_signalled now (draining since) p = p
on_signalled now (exited in_time) p = p

abbrev pub on_clock : ℕ → Phase → Process → Process
on_clock now waiting p = p
on_clock now (draining since) p =
    if leb (since + 30000) now then record p { phase = exited false } else p
on_clock now (exited in_time) p = p

unfoldable pub step : Event → Process → Process
step (server_ended r) p = on_server_ended p.phase (record p { server = some r })
step (signalled now) p = on_signalled now p.phase p
step (clock now) p = on_clock now p.phase p

unfoldable pub run : List Event → Process → Process
run [] p = p
run (e ∷ es) p = run es (step e p)
