-- ===== src/RustGateway/Metrics/Tests.antt =====
-- The record of a request that is not found, and the metrics of a process.
use app_gate.Base.{
  ℕ, String, ◌≡◌, refl, true, false, Bool, ◌==◌, ◌||◌, if◌then◌else◌, none, some, List, [], ◌∷◌,
}
use app_gate.Base.Decimal.{to_string}
use app_gate.Base.Http.{Request, Response, Send, is_visible}
use app_gate.Base.Http.Strict.{strict, strict-HttpLaws}
use app_gate.Base.Prometheus.Sample.{sample, no_histogram, sample-CounterVecLaws}
use app_gate.Base.Result.{ok, err}
use app_gate.RustGateway.Config.{default_gateway}
use app_gate.RustGateway.Metrics.Registration.{Registering, Statics, record_each}
use app_gate.RustGateway.Metrics.Counted.{count, series, record_each-counts}
use app_gate.RustGateway.Router.{Router, new}
use app_gate.RustGateway.Server.Responses.{local, id_headers, not_found_built}
use app_gate.RustGateway.Server.{handle_request, route_request}

port : to_string 8080 ≡ "8080"
unfolding to_string
port = refl

abbrev get : Request
get = record { method = "GET"; path = "/x"; query = none; headers = []; body = ok [] }

abbrev send : Send
send req = err "unreachable"

abbrev router : Router
router = new default_gateway none

visible : is_visible "id" ≡ true
visible = unfold is_visible in refl

abbrev answer : Response
answer =
    local 404 (id_headers "id")
      "{\"error\":\"not_found\",\"message\":\"The requested resource was not found\"}"

answered :
    handle_request strict send router "" (("/x", 200) ∷ []) get "id"
    ≡ some (answer, ("/x", 200) ∷ ("/x", 404) ∷ [])
unfolding handle_request route_request
answered = simp (not_found_built strict strict-HttpLaws "id" visible) refl

-- A registry that takes each name once.
abbrev known : String → List String → Bool
known name [] = false
known name (other ∷ rest) = other == name || known name rest

abbrev registering : Registering (List (List String)) ℕ (List String)
registering = record {
  register_counter_vec = λ name help labels r.
      if known name r
      then err "Duplicate metrics collector registration attempted"
      else ok ([], name ∷ r);
  register_histogram_vec = λ name help labels r.
      if known name r
      then err "Duplicate metrics collector registration attempted"
      else ok (0, name ∷ r);
}

record_each-counts_example :
    (s : Statics (List (List String)) ℕ (List String)) × (record_each registering sample
        no_histogram
        (λ c. 1)
        (("/x", 200) ∷ ("/x", 404) ∷ [])
        (record { requests_total = none; request_duration = none; registry = [] })
      ≡ some s)
    × (series registering sample no_histogram
          (λ c. 1)
          sample-CounterVecLaws
          ("/x" ∷ "404" ∷ [])
          s.requests_total
        ≡ count "/x" "404" (("/x", 200) ∷ ("/x", 404) ∷ []))
record_each-counts_example =
    record_each-counts registering sample no_histogram (λ c. 1) sample-CounterVecLaws [] 0 []
      ("gateway_requests_total" ∷ [])
      ("gateway_request_duration_seconds" ∷ "gateway_requests_total" ∷ []) "/x" "404"
      (("/x", 200) ∷ ("/x", 404) ∷ []) refl refl (λ labels. refl)
