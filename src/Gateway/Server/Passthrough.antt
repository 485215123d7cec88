-- ===== src/Gateway/Server/Passthrough.antt =====
-- The handler of gateway/src/server.rs: what it sends and what it answers.
use app_gate.Base.{
  String, ◌≡◌, refl, ◌∙◌, Bool, true, false, ◌||◌, Option, some, [], ◌∷◌, if◌then◌else◌,
}
use app_gate.Base.Result.{ok}
use app_gate.Base.Http.{
  Response, Request, HttpCrate, HttpLaws, Send, bytes_of, with_body, is_token, is_visible,
}
use app_gate.Gateway.Proxy.Forwarding.{outgoing, relayed, forward-relays, forward-answers}
use app_gate.Gateway.Server.{upstream_url_of, is_get, plain, handle_request}

module _ (http : HttpCrate) (laws : HttpLaws http) (send : Send) where
  -- One of the three routes that the gateway serves itself.
  abbrev pub is_local : Request → Bool
  is_local req =
      is_get http send req "/healthz"
      || is_get http send req "/readyz"
      || is_get http send req "/metrics"

  routed :
      (health ready metrics : Bool) (h r m other : Option Response)
      → (health || ready || metrics) ≡ false
      → (if health then h else if ready then r else if metrics then m else other) ≡ other
  routed true _ _ h r m other e = cc
  routed false true _ h r m other e = cc
  routed false false true h r m other e = cc
  routed false false false h r m other e = refl

  -- A request that the gateway does not serve itself, and whose method the client takes, goes to
  -- the upstream: `outgoing` says with what, and `relayed` what is answered.
  pub handle_request_relays :
      (metrics : String) (req : Request) (base : String)
      → is_local req ≡ false
      → http.from_bytes req.method ≡ ok req.method
      → handle_request http send metrics req base
        ≡ some (relayed http "upstream_failure" (send (outgoing req (upstream_url_of base req))))
  unfolding handle_request
  handle_request_relays metrics req base other m =
      routed (is_get http send req "/healthz") (is_get http send req "/readyz")
        (is_get http send req "/metrics") _ _ _ _ other
      ∙ forward-relays http laws send "upstream_failure" req _ m

  plain_built :
      (content_type body : String)
      → is_visible content_type ≡ true
      → plain http send content_type body
        ≡ some (record {
          status = 200;
          headers = ("content-type", content_type) ∷ [];
          body = bytes_of body;
        })
  unfolding with_body is_token
  plain_built content_type body h = simp (laws.plain_header "content-type" content_type refl h) refl

  Answered : Option Response → Type 0
  Answered o = (r : Response) × (o ≡ some r)

  guarded :
      (health ready metrics : Bool) (h r m other : Option Response)
      → Answered h
      → Answered r
      → Answered m
      → Answered other
      → Answered (if health then h else if ready then r else if metrics then m else other)
  guarded true _ _ h r m other a b c d = a
  guarded false true _ h r m other a b c d = b
  guarded false false true h r m other a b c d = c
  guarded false false false h r m other a b c d = d

  -- Every request is answered, without a panic, whatever the upstream does.
  pub handle_request_total :
      (metrics : String) (req : Request) (base : String)
      → (r : Response) × (handle_request http send metrics req base ≡ some r)
  unfolding handle_request is_visible Answered
  handle_request_total metrics req base =
      guarded (is_get http send req "/healthz") (is_get http send req "/readyz")
        (is_get http send req "/metrics") _ _ _ _ (_, plain_built "text/plain" "ok\n" refl)
        (_, plain_built "text/plain" "ready\n" refl)
        (_, plain_built "text/plain; version=0.0.4" metrics refl)
        (forward-answers http laws send "upstream_failure" req (upstream_url_of base req))
