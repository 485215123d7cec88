-- ===== src/RustGateway/Telemetry/Tests.antt =====
-- A process with a pipeline, which is named by its version.
use app_gate.Base.{String, none, some, [], ◌∷◌, ◌≡◌}
use app_gate.Base.Result.{Result, ok}
use app_gate.RustGateway.Telemetry.{Process, Otel}
use app_gate.RustGateway.Telemetry.Lifetime.{IsTraced, traced_main, traced_main-IsTraced}

abbrev otel : Otel String
otel = some (λ p. ok p.service_version)

abbrev running : Result (Unit {0}) (Unit {0})
running = ok tt

traced_main-IsTraced_example :
    (p : Process String) × (traced_main otel "1.0.0" none (some "debug") running ≡ some p)
    × IsTraced (some "1.0.0") (some "debug") ("1.0.0" ∷ []) p
traced_main-IsTraced_example = traced_main-IsTraced otel "1.0.0" none (some "debug") running
