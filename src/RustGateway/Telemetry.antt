-- ===== src/RustGateway/Telemetry.antt =====
-- rust-gateway/src/telemetry.rs: the subscriber of the process, and the guard that flushes its
-- spans. The feature `otel` and the crates behind it are parameters: without the feature there is
-- no pipeline. `shutdown`, which nothing calls, is left out.
pub mod Lifetime
mod Tests
use app_gate.Base.{
  ℕ, String, Bool, true, false, Option, none, some, List, [], ◌∷◌, ◌++◌, ◌==◌, ◌+++◌, if◌then◌else◌,
}
use app_gate.Base.Result.{Result, ok, err}

-- What the exporter and the resource of the spans are set to.
pub record Pipeline : Type 0 where
  pub endpoint : String
  pub timeout_secs : ℕ
  pub service_name : String
  pub service_version : String

-- The layers of a registry: the filter, the JSON output, and a tracer of a provider.
pub record Subscriber (P : Type 0) : Type 0 where
  pub env_filter : String
  pub telemetry : Option (P × String)

-- The process: its global subscriber, its standard error, and the providers that were shut down.
pub record Process (P : Type 0) : Type 0 where
  pub subscriber : Option (Subscriber P)
  pub stderr : List String
  pub shut_down : List P

pub record TracerGuard (P : Type 0) : Type 0 where
  pub provider : Option P

abbrev pub filter_of : Bool → String
filter_of debug = if debug then "debug" else "info"

-- `install_batch` of the feature `otel`, if it is compiled.
abbrev pub Otel : Type 0 → Type 0
Otel P = Option (Pipeline → Result P String)

-- `version` is that of the package.
abbrev pub pipeline : String → String → Pipeline
pipeline version otlp_endpoint = record {
  endpoint = otlp_endpoint;
  timeout_secs = 10;
  service_name = "appgate-gateway";
  service_version = version;
}

module _ {P : Type 0} where
  -- `.init()`: `none` is its panic if the process has a subscriber.
  abbrev pub init : Subscriber P → Process P → Option (Process P)
  init s p = elim p.subscriber [
    | none ↦ some (record p { subscriber = some s })
    | some other ↦ none
  ]

  abbrev pub guarded :
      Option (TracerGuard P) → Option (Process P) → Option (Process P × Option (TracerGuard P))
  guarded guard none = none
  guarded guard (some p) = some (p, guard)

  -- The end of the function, without a pipeline.
  abbrev pub stdout_only : Bool → Process P → Option (Process P × Option (TracerGuard P))
  stdout_only debug p =
      guarded none (init (record { env_filter = filter_of debug; telemetry = none }) p)

  abbrev pub installed :
      Bool → Result P String → Process P → Option (Process P × Option (TracerGuard P))
  installed debug (ok provider) p = guarded (some (record { provider = some provider })) (
      init (record { env_filter = filter_of debug; telemetry = some (provider, "appgate-gateway") })
        p)
  installed debug (err e) p = stdout_only debug (record p {
    stderr = p.stderr ++ ("OTLP initialization failed (" +++ e +++ "), using stdout only") ∷ [];
  })

  unfoldable pub init_tracer_provider :
      Otel P → String → String → Bool → Process P → Option (Process P × Option (TracerGuard P))
  init_tracer_provider none version otlp_endpoint debug p = stdout_only debug p
  init_tracer_provider (some install_batch) version otlp_endpoint debug p =
      installed debug (install_batch (pipeline version otlp_endpoint)) p

  abbrev take_provider : Option P → TracerGuard P → Process P → TracerGuard P × Process P
  take_provider none guard p = (guard, p)
  take_provider (some provider) guard p =
      (record { provider = none }, record p { shut_down = p.shut_down ++ provider ∷ [] })

  -- `Drop::drop` of the guard: its provider is taken and shut down.
  unfoldable pub drop : TracerGuard P → Process P → TracerGuard P × Process P
  drop guard p = take_provider guard.provider guard p

-- The arguments of `main`, of the values of `OTEL_EXPORTER_OTLP_ENDPOINT` and `APPGATE_LOG_LEVEL`.
abbrev pub endpoint_or_local : Option String → String
endpoint_or_local none = "http://localhost:4317"
endpoint_or_local (some endpoint) = endpoint

abbrev pub is_debug : Option String → Bool
is_debug none = false
is_debug (some level) = level == "debug"
