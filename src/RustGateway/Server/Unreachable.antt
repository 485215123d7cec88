-- ===== src/RustGateway/Server/Unreachable.antt =====
-- The proxy handler of rust-gateway/src/server.rs with the client of rust-gateway/src/proxy.rs,
-- before an upstream that takes no HTTP/2.
use app_gate.Base.{String, Bool, true, false, some, ◌≡◌, refl, ap, ◌∙◌}
use app_gate.Base.Http.{Request, HttpCrate, HttpLaws, Send, is_visible}
use app_gate.Base.Reqwest.{Reqwest, ReqwestLaws, expect-built}
use app_gate.Base.Result.{ok}
use app_gate.RustGateway.Proxy
use app_gate.RustGateway.Proxy.{settings}
use app_gate.RustGateway.Router.{Router, select}
use app_gate.RustGateway.Server.{handle_proxy}
use app_gate.RustGateway.Server.Upstream.{Fits, outgoing, bad_gateway, relayed, handle_proxy_relays}

module _ (http : HttpCrate) (laws : HttpLaws http) (reqwest : Reqwest) (takes_http2 : String → Bool)
    (client_laws : ReqwestLaws reqwest takes_http2) where
  -- With the client that the proxy builds, a proxied request with a visible identifier, a method
  -- that the client takes and a body that fits is answered with a 502, whatever else it asks for,
  -- if the address of the chosen upstream is a URI and its server takes no HTTP/2.
  pub handle_proxy-http1 :
      (client : Send) (router : Router) (request_id : String) (req : Request) (url : String)
      → Proxy.new reqwest ≡ some client
      → is_visible request_id ≡ true
      → select router req.path ≡ some url
      → http.uri_ok url ≡ true
      → http.from_bytes req.method ≡ ok req.method
      → Fits req.body
      → takes_http2 url ≡ false
      → (e : String) × (handle_proxy http client router req request_id
          ≡ some (bad_gateway request_id e))
  unfolding Proxy.new
  handle_proxy-http1 client router request_id req url h visible chosen uri method fits http1 =
      let (e, failed) =
        client_laws.prior_knowledge settings client (outgoing req.method url request_id) refl
          (expect-built (reqwest.build settings) client h) http1 in
      (
        e,
        handle_proxy_relays http client router laws request_id visible req url chosen uri method
              fits
            ∙ ap (λ o. some (relayed http request_id o)) failed,
      )
