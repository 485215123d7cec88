-- ===== src/Gateway/Telemetry.antt =====
-- gateway/src/telemetry.rs: the subscriber of the process. The guard that it returns only logs.
use app_gate.Base.{String, Option, none}
use app_gate.Base.Result.{unwrap_or}
use app_gate.RustGateway.Telemetry.{Process, init}

-- `from_env` is the filter of the environment, if it can be read. The address of the collector is
-- not used; `none` is the panic of `.init()`.
unfoldable pub init_tracer_provider :
    {P : Type 0} → Option String → String → Process P → Option (Process P)
init_tracer_provider from_env otlp_endpoint p =
    init (record { env_filter = unwrap_or "appgate=info,warn" from_env; telemetry = none }) p
