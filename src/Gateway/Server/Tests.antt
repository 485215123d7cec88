-- ===== src/Gateway/Server/Tests.antt =====
-- A request that carries a credential, over an upstream that shows the headers it was sent.
use mathlib.Core.Bool.{false≢true}
use app_gate.Base.{
  inl, inr, eq_iff, String, ◌≡◌, refl, some, [], ◌∷◌, filter, contains, any, trim_end_matches,
  ◌+++◌,
}
use app_gate.Base.Assoc.{lookup}
use app_gate.Base.Reqwest.Plain.{reqwest, takes_http2, reqwest-ReqwestLaws, http2_client}
use app_gate.Base.Result.{ok}
use app_gate.Base.Http.{bytes_of, Headers, Request, UpstreamRequest, Send, is_visible}
use app_gate.Base.Http.Strict.{strict, strict-HttpLaws}
use app_gate.Gateway.Proxy
use app_gate.Gateway.Proxy.{upstream, forwarded}
use app_gate.Gateway.Proxy.Forwarding.{outgoing, bad_gateway, relayed}
use app_gate.Gateway.Server.{upstream_url_of, handle_request}
use app_gate.Gateway.Server.Sending.{IsForwarding, IsOwn, handle_request-IsForwarding}
use app_gate.Gateway.Server.Unreachable.{handle_request-http1}

abbrev shown : Headers → String
shown [] = ""
shown ((name, value) ∷ rest) = name +++ ("=" +++ (value +++ (";" +++ shown rest)))

abbrev send : Send
send req = ok (record {
  status = 200;
  headers = ("content-type", "text/plain") ∷ [];
  body = ok (bytes_of (req.url +++ (" " +++ shown req.headers)));
})

abbrev request : Request
request = record {
  method = "GET";
  path = "/v1/policies";
  query = some "page=2";
  headers = ("cookie", "c") ∷ ("authorization", "Bearer a") ∷ [];
  body = ok (1 ∷ []);
}

-- The credential goes on, the cookie does not.
sent_text :
    relayed strict "upstream_failure"
      (send (outgoing request (upstream_url_of "http://cp/" request)))
    ≡ record {
      status = 200;
      headers = ("x-appgate-proxy", "1") ∷ ("content-type", "text/plain") ∷ [];
      body = bytes_of "http://cp/v1/policies?page=2 authorization=Bearer a;";
    }
unfolding upstream_url_of trim_end_matches forwarded filter contains any lookup is_visible
sent_text = refl

not-IsOwn : ¬ IsOwn request
not-IsOwn (method, inl path) = false≢true ((eq_iff "/v1/policies" "/healthz").1 path)
not-IsOwn (method, inr (inl path)) = false≢true ((eq_iff "/v1/policies" "/readyz").1 path)
not-IsOwn (method, inr (inr path)) = false≢true ((eq_iff "/v1/policies" "/metrics").1 path)

handle_request-IsForwarding_example :
    (sent : UpstreamRequest) × IsForwarding "http://cp/" request sent
    × (handle_request strict send "" request "http://cp/"
        ≡ some (relayed strict "upstream_failure" (send sent)))
handle_request-IsForwarding_example =
    handle_request-IsForwarding strict strict-HttpLaws send "" request "http://cp/" not-IsOwn refl

handle_request-http1_example :
    (e : String) × (handle_request strict (http2_client send) "" request "http://cp/"
      ≡ some (bad_gateway "upstream_failure" (upstream e)))
unfolding Proxy.new upstream_url_of trim_end_matches
handle_request-http1_example =
    handle_request-http1 strict strict-HttpLaws (reqwest send) takes_http2
      (reqwest-ReqwestLaws send) "" request "http://cp/" (http2_client send) refl refl refl refl
