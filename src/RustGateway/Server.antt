-- ===== src/RustGateway/Server.antt =====
-- rust-gateway/src/server.rs: from a request to its response. `none` is a panic of `.unwrap()`.
-- Access logging is left out; the recorded metrics are the list of the completed requests.
pub mod Responses
pub mod Routes
pub mod Upstream
pub mod Unreachable
pub mod Unroutable
pub mod Recording
mod Tests
use app_gate.Base.{
  ℕ, ◌*◌, String, Bool, true, false, ◌&&◌, ◌||◌, Option, none, some, List, [], ◌∷◌, ◌++◌, ◌==◌,
  ◌+++◌, length, ltb, if◌then◌else◌,
}
use app_gate.Base.Result.{Result, ok, err}
use app_gate.Base.Http.{
  Bytes, bytes_of, Headers, Response, Request, FullRequest, HttpCrate, Send, Builder, builder,
  with_status, with_header, with_body, headers_ok,
}
use app_gate.RustGateway.Router.{Router, select}
use app_gate.RustGateway.Proxy.{ProxyError, to_string, forward}

unfoldable pub with_security_headers : Builder → Builder
with_security_headers b =
    with_header "permissions-policy" "geolocation=(), microphone=(), camera=()" (
      with_header "referrer-policy" "strict-origin-when-cross-origin" (
        with_header "strict-transport-security" "max-age=31536000; includeSubDomains" (
          with_header "x-xss-protection" "1; mode=block" (
            with_header "x-frame-options" "DENY"
              (with_header "x-content-type-options" "nosniff" b)))))

abbrev pub max_body_bytes : ℕ
max_body_bytes = 10 * 1024 * 1024

unfoldable pub error_body : String → String → String → String
error_body code message request_id =
    "{\"error\":\"" +++ code +++ "\",\"message\":\"" +++ message +++ "\",\"request_id\":\""
    +++ request_id +++ "\"}"

abbrev is_at : Request → String → String → Bool
is_at req method path = req.method == method && req.path == path

module _ (http : HttpCrate) where
  -- A response with the security headers, a content type and no request id.
  abbrev plain : String → String → Option Response
  plain content_type body =
      with_body http (bytes_of body)
        (with_header "content-type" content_type (with_status 200 (with_security_headers builder)))

  unfoldable pub health_response : Option Response
  unfolding with_security_headers with_body
  health_response = plain "application/json" "{\"status\":\"healthy\"}"

  unfoldable pub ready_response : Option Response
  unfolding with_security_headers with_body
  ready_response = plain "application/json" "{\"status\":\"ready\"}"

  -- `metrics` is the text that `gather_metrics` returns.
  unfoldable pub metrics_response : String → Option Response
  unfolding with_security_headers with_body
  metrics_response metrics = plain "text/plain; version=0.0.4" metrics

  -- A response that names its request.
  abbrev named : ℕ → String → String → Option Response
  named status body request_id = with_body http (bytes_of body) (
      with_header "x-request-id" request_id (
        with_header "content-type" "application/json"
          (with_status status (with_security_headers builder))))

  unfoldable pub not_found_response : String → Option Response
  unfolding with_security_headers with_body
  not_found_response request_id =
      named 404 "{\"error\":\"not_found\",\"message\":\"The requested resource was not found\"}"
        request_id

  unfoldable pub proxy_error_response : ℕ → String → String → String → Option Response
  unfolding with_security_headers with_body error_body
  proxy_error_response status code message request_id =
      named status (error_body code message request_id) request_id

module _ (http : HttpCrate) (send : Send) (router : Router) where
  -- `Request::builder()…body(…)`
  abbrev proxy_request : String → String → String → Bytes → Option FullRequest
  proxy_request method upstream_url request_id body =
      let headers = ("content-type", "application/json") ∷ ("x-request-id", request_id) ∷ [] in
      if http.uri_ok upstream_url && headers_ok http headers
      then some (record { method = method; uri = upstream_url; headers = headers; body = body })
      else none

  abbrev forwarded_or_error : String → Result Response ProxyError → Option Response
  forwarded_or_error request_id (ok resp) = some resp
  forwarded_or_error request_id (err e) =
      proxy_error_response http 502 "upstream_error" ("Upstream request failed: " +++ to_string e)
        request_id

  abbrev send_proxy_request : String → String → Option FullRequest → Option Response
  send_proxy_request request_id upstream_url none =
      proxy_error_response http 500 "internal_error" "Failed to build upstream request" request_id
  send_proxy_request request_id upstream_url (some req) =
      forwarded_or_error request_id (forward http send req upstream_url)

  abbrev upstream_or_local : Option String → String
  upstream_or_local none = "http://localhost:8080"
  upstream_or_local (some url) = url

  -- `handle_proxy` once the body has been read.
  abbrev proxy_body : Request → String → Bytes → Option Response
  proxy_body req request_id body =
      let upstream_url = upstream_or_local (select router req.path) in
      if ltb max_body_bytes (length body)
      then proxy_error_response http 413 "payload_too_large" "Body exceeds 10485760 bytes"
          request_id
      else send_proxy_request request_id upstream_url
          (proxy_request req.method upstream_url request_id body)

  abbrev proxy_collected : Request → String → Result Bytes String → Option Response
  proxy_collected req request_id (err e) =
      proxy_error_response http 400 "bad_request" "Failed to read request body" request_id
  proxy_collected req request_id (ok body) = proxy_body req request_id body

  unfoldable pub handle_proxy : Request → String → Option Response
  handle_proxy req request_id = proxy_collected req request_id req.body

  unfoldable pub route_request : String → Request → String → Option Response
  unfolding handle_proxy
  route_request metrics req request_id =
      if is_at req "GET" "/healthz" || is_at req "GET" "/health"
      then health_response http
      else if is_at req "GET" "/readyz" || is_at req "GET" "/ready"
      then ready_response http
      else if is_at req "GET" "/metrics"
      then metrics_response http metrics
      else if is_at req "POST" "/v1/proxy" || is_at req "POST" "/v1/chat/completions"
      then handle_proxy req request_id
      else not_found_response http request_id

  -- `handle_request`: the response and the metrics with this request recorded. The loop over a
  -- connection goes on only if no handler panicked.
  abbrev recorded :
      String → List (String × ℕ) → Option Response → Option (Response × List (String × ℕ))
  recorded path completed none = none
  recorded path completed (some r) = some (r, completed ++ (path, r.status) ∷ [])

  unfoldable pub handle_request :
      String → List (String × ℕ) → Request → String → Option (Response × List (String × ℕ))
  unfolding route_request
  handle_request metrics completed req request_id =
      recorded req.path completed (route_request metrics req request_id)
