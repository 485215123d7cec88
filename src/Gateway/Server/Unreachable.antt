-- ===== src/Gateway/Server/Unreachable.antt =====
-- The handler of gateway/src/server.rs with the client of gateway/src/proxy.rs, before an upstream
-- that takes no HTTP/2.
use app_gate.Base.{String, Bool, false, some, ◌≡◌, refl, ap, ◌∙◌}
use app_gate.Base.Http.{Request, HttpCrate, HttpLaws, Send}
use app_gate.Base.Reqwest.{Reqwest, ReqwestLaws, expect-built}
use app_gate.Base.Result.{ok, err}
use app_gate.Gateway.Proxy
use app_gate.Gateway.Proxy.{upstream, settings}
use app_gate.Gateway.Proxy.Forwarding.{outgoing, bad_gateway, relayed}
use app_gate.Gateway.Server.{upstream_url_of, handle_request}
use app_gate.Gateway.Server.Passthrough.{is_local, handle_request_relays}

module _ (http : HttpCrate) (laws : HttpLaws http) (reqwest : Reqwest) (takes_http2 : String → Bool)
    (client_laws : ReqwestLaws reqwest takes_http2) where
  failed_answer :
      (metrics : String) (req : Request) (base : String) (client : Send) (e : String)
      → is_local http laws client req ≡ false
      → http.from_bytes req.method ≡ ok req.method
      → client (outgoing req (upstream_url_of base req)) ≡ err e
      → handle_request http client metrics req base
        ≡ some (bad_gateway "upstream_failure" (upstream e))
  failed_answer metrics req base client e other m failed =
      handle_request_relays http laws client metrics req base other m
      ∙ ap (λ o. some (relayed http "upstream_failure" o)) failed

  -- With the client that the proxy builds, a request that the gateway does not serve itself is
  -- answered with a 502, whatever it asks for, if the server of its address takes no HTTP/2.
  pub handle_request-http1 :
      (metrics : String) (req : Request) (base : String) (client : Send)
      → Proxy.new reqwest ≡ some client
      → is_local http laws client req ≡ false
      → http.from_bytes req.method ≡ ok req.method
      → takes_http2 (upstream_url_of base req) ≡ false
      → (e : String) × (handle_request http client metrics req base
          ≡ some (bad_gateway "upstream_failure" (upstream e)))
  unfolding Proxy.new
  handle_request-http1 metrics req base client h other m http1 =
      let (e, failed) =
        client_laws.prior_knowledge settings client (outgoing req (upstream_url_of base req)) refl
          (expect-built (reqwest.build settings) client h) http1 in
      (e, failed_answer metrics req base client e other m failed)
