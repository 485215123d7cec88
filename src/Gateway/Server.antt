-- ===== src/Gateway/Server.antt =====
-- gateway/src/server.rs and gateway/src/router.rs: the handler of one request. `none` is
-- a panic of `.unwrap()`.
pub mod Passthrough
pub mod Sending
pub mod Unreachable
mod Tests
use app_gate.Base.{
  ℕ, String, Bool, ◌&&◌, Option, none, some, List, [], ◌∷◌, ◌==◌, ◌+++◌, trim_end_matches,
  if◌then◌else◌,
}
use app_gate.Base.Http.{
  bytes_of, Response, Request, HttpCrate, Send, builder, with_status, with_header, with_body,
}
use app_gate.Gateway.Proxy.{forward, or_failed}

abbrev query_or_empty : Option String → String
query_or_empty none = ""
query_or_empty (some q) = "?" +++ q

unfoldable pub upstream_url_of : String → Request → String
upstream_url_of upstream_base_url req =
    trim_end_matches b'/' upstream_base_url +++ (req.path +++ query_or_empty req.query)

module _ (http : HttpCrate) (send : Send) where
  unfoldable pub route_request : Request → String → Option Response
  unfolding upstream_url_of
  route_request req upstream_base_url =
      or_failed http send "upstream_failure"
        (forward http send req (upstream_url_of upstream_base_url req))

  abbrev is_get : Request → String → Bool
  is_get req path = req.method == "GET" && req.path == path

  abbrev plain : String → String → Option Response
  plain content_type body =
      with_body http (bytes_of body)
        (with_header "content-type" content_type (with_status 200 builder))

  -- `metrics` is the text that `gather_metrics` returns.
  unfoldable pub handle_request : String → Request → String → Option Response
  unfolding route_request
  handle_request metrics req upstream_base =
      if is_get req "/healthz"
      then plain "text/plain" "ok\n"
      else if is_get req "/readyz"
      then plain "text/plain" "ready\n"
      else if is_get req "/metrics"
      then plain "text/plain; version=0.0.4" metrics
      else route_request req upstream_base
