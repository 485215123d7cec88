-- ===== src/Gateway/Proxy.antt =====
-- gateway/src/proxy.rs. The transport and the `http` crate are parameters. The crate keeps the names
-- of headers in lower case, so `to_lowercase` changes none; a value is its text.
pub mod Forwarding
use text.Mathlib.Text.{◌==◌}
use app_gate.Base.{
  ℕ, String, Bool, true, Option, none, some, List, [], ◌∷◌, ◌+++◌, contains, filter, if◌then◌else◌,
}
use app_gate.Base.Assoc.{lookup}
use app_gate.Base.Reqwest.{ClientSettings, Reqwest, expect}
use app_gate.Base.Result.{Result, ok, err, map_err, ◌>>=◌}
use app_gate.Base.Http.{
  Bytes, bytes_of, Headers, Response, Request, UpstreamResponse, HttpCrate, Send, Builder, builder,
  with_status, with_header, with_body, or_bare_500, status_or_bad_gateway,
}

-- The client of `ProxyClient::new`.
abbrev pub settings : ClientSettings
settings = record {
  timeout = some 30000;
  connect_timeout = some 5000;
  pool_max_idle_per_host = some 200;
  pool_idle_timeout = some 60000;
  http2_prior_knowledge = true;
}

-- `ProxyClient::new`; `none` is a panic of `.expect(…)`.
unfoldable pub new : Reqwest → Option Send
new reqwest = expect (reqwest.build settings)

pub data ProxyError : Type 0 where
  upstream internal : String → ProxyError

-- The `Display` of the error.
unfoldable pub to_string : ProxyError → String
to_string (upstream e) = "upstream error: " +++ e
to_string (internal e) = "internal error: " +++ e

-- The headers that the `matches!` of `forward` lets through.
abbrev pub forwarded_names : List String
forwarded_names =
    "authorization" ∷ "content-type" ∷ "x-request-id" ∷ "accept" ∷ "x-api-key" ∷ "x-tenant-id"
    ∷ "user-agent" ∷ []

unfoldable pub forwarded : Headers → Headers
forwarded headers = filter (λ h. contains forwarded_names h.0) headers

-- `if let Some(value) … { builder = builder.header(name, value); }`
abbrev pub with_optional : String → Option String → Builder → Builder
with_optional name none b = b
with_optional name (some value) b = with_header name value b

-- `.and_then(|v| v.to_str().ok())` of a header that was looked up.
abbrev pub readable : HttpCrate → Option String → Option String
readable http none = none
readable http (some value) = if http.to_str value then some value else none

module _ (http : HttpCrate) (send : Send) where
  -- The part of `forward` after the upstream has answered.
  unfoldable pub respond : UpstreamResponse → Result Response ProxyError
  respond resp = do
    body ← map_err upstream resp.body
    ok (
        or_bare_500 (
          with_body http body (
            with_optional "cache-control" (readable http (lookup "cache-control" resp.headers)) (
              with_optional "content-type" (readable http (lookup "content-type" resp.headers)) (
                with_header "x-appgate-proxy" "1"
                  (with_status (status_or_bad_gateway (http.from_u16 resp.status)) builder))))))

  -- The request goes out with the method and the headers, and no body.
  unfoldable pub forward : Request → String → Result Response ProxyError
  unfolding respond forwarded
  forward req upstream_url = do
    method ← map_err internal (http.from_bytes req.method)
    resp ← map_err upstream (
        send (record {
          method = method;
          url = upstream_url;
          headers = forwarded req.headers;
          body = [];
        }))
    respond resp

  -- A 502 that names the error; `none` is a panic of `.unwrap()`.
  abbrev pub failed : String → ProxyError → Option Response
  failed code e =
      with_body http
        (bytes_of ("{\"error\":\"" +++ code +++ "\",\"message\":\"" +++ to_string e +++ "\"}"))
        (with_header "content-type" "application/json" (with_status 502 builder))

  abbrev pub or_failed : String → Result Response ProxyError → Option Response
  or_failed code (ok resp) = some resp
  or_failed code (err e) = failed code e

  unfoldable pub handle_proxy_request : Request → String → Option Response
  unfolding forward
  handle_proxy_request req upstream_url = or_failed "upstream_error" (forward req upstream_url)
