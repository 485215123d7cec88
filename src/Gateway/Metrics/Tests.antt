-- ===== src/Gateway/Metrics/Tests.antt =====
-- Four recordings, two of which are requests that were answered with 200.
use mathlib.Core.Bool.{false≢true}
use app_gate.Base.{ℕ, String, ◌≡◌, ◌≢◌, refl, List, [], ◌∷◌, eq_iff}
use app_gate.Gateway.Metrics.{Metrics, status_to_string}
use app_gate.Gateway.Metrics.Requests.{Recording, request, auth_failure, requests_with}

abbrev empty : Metrics (List (List String)) ℕ ℕ
empty = record {
  active_connections = 0;
  requests_total = [];
  request_duration = 0;
  tls_handshake_duration = 0;
  upstream_duration = 0;
  auth_failures = [];
  rate_limit_exceeded = [];
}

abbrev recordings : List (Recording ℕ)
recordings =
    request "/v1" 200 3 ∷ auth_failure "expired" ∷ request "/v1" 418 1 ∷ request "/v1" 200 9 ∷ []

two : requests_with "/v1" 200 recordings ≡ 2
unfolding requests_with
two = refl

unlisted : status_to_string 418 ≡ "other"
unfolding status_to_string
unlisted = refl

listed : status_to_string 200 ≢ "other"
unfolding status_to_string
listed h = false≢true ((eq_iff "200" "other").1 h)
