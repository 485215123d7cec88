-- ===== src/RustGateway/Server/Tests.antt =====
-- The server over a transport that echoes, and the theorems at it.
use app_gate.Base.{
  String, ℕ, ◌+◌, split, splitn, ◌≡◌, refl, ◌⊎◌, true, none, some, [], ◌∷◌, ◌++◌, arith, replicate,
  length-replicate,
}
use app_gate.Base.Result.{ok}
use app_gate.Base.Http.{bytes_of, Response, Request, Send, is_token, is_visible}
use app_gate.Base.Http.Strict.{strict, strict-HttpLaws}
use app_gate.Base.Reqwest.Plain.{reqwest, takes_http2, reqwest-ReqwestLaws, http2_client}
use app_gate.RustGateway.Config.{default_gateway}
use app_gate.RustGateway.Proxy
use app_gate.RustGateway.Router.{Router, new, select}
use app_gate.RustGateway.Server.{max_body_bytes, handle_proxy, handle_request}
use app_gate.RustGateway.Server.Responses.{relay_headers}
use app_gate.RustGateway.Server.Routes.{IsSecured, IsProxied, handle_request_answers}
use app_gate.RustGateway.Server.Unreachable.{handle_proxy-http1}
use app_gate.RustGateway.Server.Upstream.{
  Fits, bad_gateway, outgoing, relayed, refusal, handle_proxy_relays, handle_proxy_refuses,
}

-- An upstream that answers with the method and the body it was sent.
abbrev send : Send
send req = ok (record { status = 200; headers = []; body = ok (bytes_of req.method ++ req.body) })

abbrev router : Router
router = new default_gateway (some "/v1/chat=openai=https://up")

abbrev post : Request
post = record {
  method = "POST";
  path = "/v1/chat/completions";
  query = none;
  headers = ("authorization", "Bearer a") ∷ [];
  body = ok (1 ∷ 2 ∷ []);
}

-- One byte above the limit.
abbrev long : Request
long = record post { body = ok (replicate (1 + max_body_bytes) 0) }

visible : is_visible "id" ≡ true
visible = unfold is_visible in refl

post-Fits : Fits post.body
post-Fits = omega arith

long-Fits : ¬ Fits long.body
long-Fits h = omega (arith, h, length-replicate {A = ℕ} (1 + max_body_bytes) 0)

routed : select router "/v1/chat/completions" ≡ some "https://up"
unfolding select split splitn new
routed = refl

handle_proxy_relays_example :
    handle_proxy strict send router post "id"
    ≡ some (relayed strict "id" (send (outgoing "POST" "https://up" "id")))
handle_proxy_relays_example =
    handle_proxy_relays strict send router strict-HttpLaws "id" visible post "https://up" routed
      refl refl post-Fits

handle_proxy_refuses_example :
    handle_proxy strict send router long "id" ≡ some (refusal "id" long.body)
handle_proxy_refuses_example =
    handle_proxy_refuses strict send router strict-HttpLaws "id" visible long long-Fits

-- The credentials and the body are gone.
relayed_bytes :
    handle_proxy strict send router post "id"
    ≡ some (record { status = 200; headers = relay_headers; body = bytes_of "POST" })
unfolding is_token is_visible bytes_of
relayed_bytes =
    handle_proxy_relays strict send router strict-HttpLaws "id" visible post "https://up" routed
      refl refl post-Fits

handle_request_answers_example :
    (r : Response) × (handle_request strict send router "" [] post "id"
      ≡ some (r, [] ++ ("/v1/chat/completions", r.status) ∷ []))
    × (IsSecured r ⊎ ((r.headers ≡ relay_headers) × IsProxied post))
handle_request_answers_example =
    handle_request_answers strict strict-HttpLaws send router "id" visible "" [] post

-- An upstream without TLS, whose server takes no HTTP/2.
abbrev plain_router : Router
plain_router = new default_gateway (some "/v1/chat=openai=http://up")

routed_plainly : select plain_router "/v1/chat/completions" ≡ some "http://up"
unfolding select split splitn new
routed_plainly = refl

handle_proxy-http1_example :
    (e : String) × (handle_proxy strict (http2_client send) plain_router post "id"
      ≡ some (bad_gateway "id" e))
unfolding Proxy.new
handle_proxy-http1_example =
    handle_proxy-http1 strict strict-HttpLaws (reqwest send) takes_http2 (reqwest-ReqwestLaws send)
      (http2_client send) plain_router "id" post "http://up" refl visible routed_plainly refl refl
      post-Fits refl
