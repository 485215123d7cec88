-- ===== src/RustGateway/Metrics/Registration.antt =====
-- The statics of rust-gateway/src/metrics.rs: each metric is registered at its first use. The
-- registry is a parameter.
use app_gate.Base.{ℕ, String, ◌≡◌, refl, Option, none, some, List, [], ◌∷◌}
use app_gate.Base.Prometheus.{CounterVec, HistogramVec}
use app_gate.Base.Result.{Result, ok, err}
use app_gate.RustGateway.Metrics
use app_gate.RustGateway.Metrics.{Metrics}
use app_gate.RustGateway.Metrics.Handled.{record_all}

-- `register_counter_vec!` and `register_histogram_vec!` of a name, a help text and labels.
pub record Registering (V H R : Type 0) : Type 0 where
  pub register_counter_vec : String → String → List String → R → Result (V × R) String
  pub register_histogram_vec : String → String → List String → R → Result (H × R) String

-- The two `OnceLock`s, and the default registry.
pub record Statics (V H R : Type 0) : Type 0 where
  pub requests_total : Option V
  pub request_duration : Option H
  pub registry : R

-- `.expect("metric registration failed")`: `none` is the panic.
abbrev expect : {A : Type 0} → Result A String → Option A
expect (ok a) = some a
expect (err e) = none

infixl 5 ◌>>=◌
abbrev ◌>>=◌ : {A B : Type 0} → Option A → (A → Option B) → Option B
none >>= f = none
some a >>= f = f a

module _ {V H R : Type 0} (registering : Registering V H R) where
  -- `get_or_init`
  abbrev total_or_init : Option V → R → Option (V × R)
  total_or_init (some v) registry = some (v, registry)
  total_or_init none registry = expect (
      registering.register_counter_vec "gateway_requests_total" "Total number of HTTP requests"
        ("endpoint" ∷ "status" ∷ []) registry)

  abbrev duration_or_init : Option H → R → Option (H × R)
  duration_or_init (some h) registry = some (h, registry)
  duration_or_init none registry = expect (
      registering.register_histogram_vec "gateway_request_duration_seconds"
        "Request latency in seconds" ("endpoint" ∷ []) registry)

  module _ {F : Type 0} (counters : CounterVec V) (histograms : HistogramVec H F) where
    -- What a record makes of the two metrics, once they are there.
    abbrev both_recorded : String → ℕ → F → V → H → R → Statics V H R
    both_recorded endpoint status elapsed v h registry =
        let m =
          Metrics.record_request counters histograms endpoint status elapsed
            (record { requests_total = v; request_duration = h }) in
        record {
          requests_total = some m.requests_total;
          request_duration = some m.request_duration;
          registry = registry;
        }

    -- `record_request` from the statics; `none` is a panic.
    unfoldable pub record_request : String → ℕ → F → Statics V H R → Option (Statics V H R)
    record_request endpoint status elapsed s = total_or_init s.requests_total s.registry >>= λ v.
        duration_or_init s.request_duration v.1 >>= λ h.
        some (both_recorded endpoint status elapsed v.0 h.0 h.1)

    module _ (elapsed : String × ℕ → F) where
      unfoldable pub record_each : List (String × ℕ) → Statics V H R → Option (Statics V H R)
      record_each [] s = some s
      record_each (c ∷ cs) s = record_request c.0 c.1 (elapsed c) s >>= λ t. record_each cs t

      -- The statics that hold two metrics.
      abbrev pub holding : Metrics V H → R → Statics V H R
      holding m registry = record {
        requests_total = some m.requests_total;
        request_duration = some m.request_duration;
        registry = registry;
      }

      each_held :
          (cs : List (String × ℕ)) (m : Metrics V H) (registry : R)
          → record_each cs (holding m registry)
            ≡ some (holding (record_all counters histograms elapsed cs m) registry)
      unfolding record_each record_all record_request
      each_held [] m registry = refl
      each_held (c ∷ cs) m registry =
          each_held cs (Metrics.record_request counters histograms c.0 c.1 (elapsed c) m) registry

      -- In a process whose registry takes the two metrics, one after the other, the requests that
      -- are recorded register each metric once, whatever their number from one on, and make of
      -- the two what recording them on registered metrics makes: no record panics.
      pub record_each-record_all :
          (v : V) (h : H) (fresh with_total with_both : R) (c : String × ℕ) (cs : List (String × ℕ))
          → registering.register_counter_vec "gateway_requests_total"
              "Total number of HTTP requests"
              ("endpoint" ∷ "status" ∷ [])
              fresh
            ≡ ok (v, with_total)
          → registering.register_histogram_vec "gateway_request_duration_seconds"
              "Request latency in seconds"
              ("endpoint" ∷ [])
              with_total
            ≡ ok (h, with_both)
          → record_each
              (c ∷ cs)
              (record { requests_total = none; request_duration = none; registry = fresh })
            ≡ some (
                holding
                  (record_all counters histograms elapsed
                    (c ∷ cs)
                    (record { requests_total = v; request_duration = h }))
                  with_both)
      unfolding record_each record_all record_request
      record_each-record_all v h fresh with_total with_both c cs total duration =
          simp (total, duration)
            (each_held cs
              (Metrics.record_request counters histograms c.0 c.1 (elapsed c)
                (record { requests_total = v; request_duration = h }))
              with_both)
