-- ===== src/RustGateway/Metrics.antt =====
-- rust-gateway/src/metrics.rs: what is recorded of a request, on the counters and histograms of the
-- crate `prometheus`, which are parameters. An observation is of type `F`, which stands for `f64`;
-- the time that a request took is an argument. The registry and the encoder are parameters.
pub mod Handled
pub mod Registration
pub mod Counted
mod Tests
use app_gate.Base.{ℕ, String, List, [], ◌∷◌, Option, ◌+++◌}
use app_gate.Base.Decimal.{to_string}
use app_gate.Base.Http.{Bytes}
use app_gate.Base.Result.{Result, ok, err, unwrap_or}
use app_gate.Base.Prometheus.{CounterVec, HistogramVec}

-- The static metrics.
pub record Metrics (V H : Type 0) : Type 0 where
  pub requests_total : V
  pub request_duration : H

-- `gather_metrics`, of what the encoder makes of the registry, and of `String::from_utf8`.
unfoldable pub gather_metrics : (Bytes → Option String) → Result Bytes String → String
gather_metrics from_utf8 (err e) = "# Error encoding metrics: " +++ (e +++ "\n")
gather_metrics from_utf8 (ok buffer) = unwrap_or "" (from_utf8 buffer)

module _ {V H F : Type 0} (counters : CounterVec V) (histograms : HistogramVec H F) where
  unfoldable pub record_request : String → ℕ → F → Metrics V H → Metrics V H
  record_request endpoint status elapsed m = record m {
    requests_total = counters.inc (endpoint ∷ to_string status ∷ []) m.requests_total;
    request_duration = histograms.observe (endpoint ∷ []) elapsed m.request_duration;
  }
