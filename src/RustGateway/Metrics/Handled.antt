-- ===== src/RustGateway/Metrics/Handled.antt =====
-- What a request that rust-gateway/src/server.rs handled adds to the metrics.
use app_gate.Base.{ℕ, suc, String, ◌≡◌, ◌≢◌, refl, ap, ◌∙◌, some, List, [], ◌∷◌, ◌++◌}
use app_gate.Base.Decimal.{to_string}
use app_gate.Base.Http.{HttpCrate, Response, Request, Send}
use app_gate.Base.Prometheus.{CounterVec, CounterVecLaws, HistogramVec}
use app_gate.RustGateway.Metrics.{Metrics, record_request}
use app_gate.RustGateway.Router.{Router}
use app_gate.RustGateway.Server.{handle_request}
use app_gate.RustGateway.Server.Recording.{handle_request-recorded}

module _ {V H F : Type 0} (counters : CounterVec V) (histograms : HistogramVec H F)
    (elapsed : String × ℕ → F) where
  -- The requests that were completed, recorded in their order.
  unfoldable pub record_all : List (String × ℕ) → Metrics V H → Metrics V H
  record_all [] m = m
  record_all (c ∷ cs) m = record_all cs (record_request counters histograms c.0 c.1 (elapsed c) m)

  record_all-append :
      (cs : List (String × ℕ)) (c : String × ℕ) (m : Metrics V H)
      → record_all (cs ++ c ∷ []) m
        ≡ record_request counters histograms c.0 c.1 (elapsed c) (record_all cs m)
  unfolding record_all
  record_all-append [] c m = refl
  record_all-append (d ∷ cs) c m =
      record_all-append cs c (record_request counters histograms d.0 d.1 (elapsed d) m)

  -- What a counter shows once some requests are recorded.
  abbrev pub shown : List String → List (String × ℕ) → Metrics V H → ℕ
  shown labels completed m = counters.value labels (record_all completed m).requests_total

  module _ (laws : CounterVecLaws counters) (http : HttpCrate) (send : Send) (router : Router) where
    -- A request that was answered adds one to the series of its path and of the status it was
    -- answered with, and nothing to any other.
    pub handle_request-counted :
        (printed request_id : String) (completed later : List (String × ℕ)) (req : Request)
        (r : Response) (m : Metrics V H) (asked : List String)
        → handle_request http send router printed completed req request_id ≡ some (r, later)
        → req.path ∷ to_string r.status ∷ [] ≢ asked
        → (shown (req.path ∷ to_string r.status ∷ []) later m
            ≡ suc (shown (req.path ∷ to_string r.status ∷ []) completed m))
          × (shown asked later m ≡ shown asked completed m)
    unfolding record_request
    handle_request-counted printed request_id completed later req r m asked answered other =
        let labels = req.path ∷ to_string r.status ∷ [] in
        let appended =
          handle_request-recorded http send router printed request_id completed later req r
            answered in
        let counted : (record_all later m).requests_total
            ≡ counters.inc labels (record_all completed m).requests_total =
          ap (λ cs. (record_all cs m).requests_total) appended
          ∙ ap (λ n. n.requests_total) (record_all-append completed (req.path, r.status) m) in
        (
          ap (counters.value labels) counted
              ∙ laws.own labels (record_all completed m).requests_total,
          ap (counters.value asked) counted
              ∙ laws.others labels asked (record_all completed m).requests_total other,
        )
