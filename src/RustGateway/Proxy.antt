-- ===== src/RustGateway/Proxy.antt =====
-- rust-gateway/src/proxy.rs. The transport and the `http` crate are parameters.
use app_gate.Base.{String, Option, none, some, true, List, [], ◌∷◌, ◌+++◌, contains, filter}
use app_gate.Base.Reqwest.{ClientSettings, Reqwest, expect}
use app_gate.Base.Result.{Result, ok, map_err, ◌>>=◌}
use app_gate.Base.Http.{
  Response, FullRequest, UpstreamResponse, HttpCrate, Send, Headers, builder, with_status,
  with_header, with_body, or_bare_500, status_or_bad_gateway,
}

-- The client of `ProxyClient::new`.
abbrev pub settings : ClientSettings
settings = record {
  timeout = some 30000;
  connect_timeout = some 5000;
  pool_max_idle_per_host = some 100;
  pool_idle_timeout = none;
  http2_prior_knowledge = true;
}

-- `ProxyClient::new`; `none` is a panic of `.expect(…)`.
unfoldable pub new : Reqwest → Option Send
new reqwest = expect (reqwest.build settings)

pub data ProxyError : Type 0 where
  upstream internal : String → ProxyError

-- The `Display` of the error.
unfoldable pub to_string : ProxyError → String
to_string (upstream e) = "upstream error: " +++ e
to_string (internal e) = "internal error: " +++ e

-- The headers that the `matches!` of `forward` lets through.
abbrev pub forwarded_names : List String
forwarded_names = "authorization" ∷ "content-type" ∷ "x-request-id" ∷ "accept" ∷ []

unfoldable pub forwarded : Headers → Headers
forwarded headers = filter (λ h. contains forwarded_names h.0) headers

module _ (http : HttpCrate) (send : Send) where
  -- The part of `forward` after the upstream has answered.
  unfoldable pub respond : UpstreamResponse → Result Response ProxyError
  respond resp = do
    body ← map_err upstream resp.body
    ok (
        or_bare_500 (
          with_body http body (
            with_header "x-appgate-proxy" "1" (
              with_header "content-type" "application/json"
                (with_status (status_or_bad_gateway (http.from_u16 resp.status)) builder)))))

  -- The request goes out with the method and the headers, and no body.
  unfoldable pub forward : FullRequest → String → Result Response ProxyError
  unfolding respond forwarded
  forward req upstream_url = do
    method ← map_err internal (http.from_bytes req.method)
    resp ← map_err upstream (
        send (record {
          method = method;
          url = upstream_url;
          headers = forwarded req.headers;
          body = [];
        }))
    respond resp
