-- ===== src/RustGateway/Server/Unroutable.antt =====
-- What the proxy handler answers when the upstream is no URI.
use app_gate.Base.{String, ◌≡◌, refl, ap, ◌∙◌, false, some}
use app_gate.Base.Http.{Bytes, HttpCrate, Send, Request}
use app_gate.Base.Result.{Result, ok, err}
use app_gate.RustGateway.Router.{Router, select}
use app_gate.RustGateway.Server.{
  proxy_collected, upstream_or_local, handle_proxy, proxy_error_response,
}
use app_gate.RustGateway.Server.Upstream.{Fits, sent, proxy_body-Fits}

module _ (http : HttpCrate) (send : Send) (router : Router) where
  collected_unroutable :
      (req : Request) (url request_id : String) (body : Result Bytes String)
      → select router req.path ≡ some url
      → http.uri_ok url ≡ false
      → Fits body
      → proxy_collected http send router req request_id body
        ≡ proxy_error_response http 500 "internal_error" "Failed to build upstream request"
            request_id
  collected_unroutable req url request_id (err e) routed bad fits = absurd fits
  collected_unroutable req url request_id (ok body) routed bad fits =
      proxy_body-Fits http send router req request_id body fits
      ∙ (ap (λ k. sent http send router req.method k request_id body)
            (ap (upstream_or_local http send router) routed)
          ∙ simp (bad) refl)

  -- A body that fits and an upstream that is no URI are answered by a 500, whatever the transport.
  pub handle_proxy_unroutable :
      (req : Request) (url request_id : String)
      → select router req.path ≡ some url
      → http.uri_ok url ≡ false
      → Fits req.body
      → handle_proxy http send router req request_id
        ≡ proxy_error_response http 500 "internal_error" "Failed to build upstream request"
            request_id
  unfolding handle_proxy
  handle_proxy_unroutable req url request_id routed bad fits =
      collected_unroutable req url request_id req.body routed bad fits
