-- ===== src/Gateway/Metrics.antt =====
-- gateway/src/metrics.rs: what is recorded, on the counters and histograms of the crate
-- `prometheus`, which are parameters. An observation is of type `F`, which stands for `f64`; a
-- function that records a time is told how long it was. Registering and printing are left out.
pub mod Requests
mod Tests
use app_gate.Base.{ℕ, String, List, [], ◌∷◌, nat_eq, if◌then◌else◌}
use app_gate.Base.Prometheus.{CounterVec, HistogramVec}

-- The static metrics.
pub record Metrics (V H F : Type 0) : Type 0 where
  pub active_connections : F
  pub requests_total : V
  pub request_duration : H
  pub tls_handshake_duration : H
  pub upstream_duration : H
  pub auth_failures : V
  pub rate_limit_exceeded : V

unfoldable pub status_to_string : ℕ → String
status_to_string status =
    if nat_eq status 200
    then "200"
    else if nat_eq status 201
    then "201"
    else if nat_eq status 204
    then "204"
    else if nat_eq status 301
    then "301"
    else if nat_eq status 302
    then "302"
    else if nat_eq status 400
    then "400"
    else if nat_eq status 401
    then "401"
    else if nat_eq status 403
    then "403"
    else if nat_eq status 404
    then "404"
    else if nat_eq status 429
    then "429"
    else if nat_eq status 500
    then "500"
    else if nat_eq status 502
    then "502"
    else if nat_eq status 503
    then "503"
    else "other"

module _ {V H F : Type 0} (counters : CounterVec V) (histograms : HistogramVec H F) where
  unfoldable pub record_request : String → ℕ → F → Metrics V H F → Metrics V H F
  record_request endpoint status elapsed m = record m {
    request_duration = histograms.observe (endpoint ∷ []) elapsed m.request_duration;
    requests_total = counters.inc (status_to_string status ∷ endpoint ∷ []) m.requests_total;
  }

  unfoldable pub record_tls_handshake : String → F → Metrics V H F → Metrics V H F
  record_tls_handshake tls_version elapsed m = record m {
    tls_handshake_duration = histograms.observe (tls_version ∷ []) elapsed m.tls_handshake_duration;
  }

  unfoldable pub record_upstream_duration : String → F → Metrics V H F → Metrics V H F
  record_upstream_duration upstream elapsed m = record m {
    upstream_duration = histograms.observe (upstream ∷ []) elapsed m.upstream_duration;
  }

  unfoldable pub record_auth_failure : String → Metrics V H F → Metrics V H F
  record_auth_failure reason m = record m {
    auth_failures = counters.inc (reason ∷ []) m.auth_failures;
  }

  unfoldable pub record_rate_limit_exceeded : String → Metrics V H F → Metrics V H F
  record_rate_limit_exceeded identity m = record m {
    rate_limit_exceeded = counters.inc (identity ∷ []) m.rate_limit_exceeded;
  }

  abbrev pub set_active_connections : F → Metrics V H F → Metrics V H F
  set_active_connections count m = record m { active_connections = count }
