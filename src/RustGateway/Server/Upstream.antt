-- ===== src/RustGateway/Server/Upstream.antt =====
-- What the proxy handler sends upstream, and what it answers.
use app_gate.Base.{
  ℕ, ◌≤◌, String, ◌≡◌, refl, sym, ap, ◌∙◌, true, false, ◌&&◌, Option, some, [], ◌+++◌, arith,
  length, filter, contains, any, Bool-cases, ltb, inl, inr,
}
use app_gate.Base.Result.{Result, ok, err, map_err, ◌>>=◌}
use app_gate.Base.Http.{
  Bytes, Response, Request, UpstreamRequest, UpstreamResponse, HttpCrate, HttpLaws, Send,
  status_or_bad_gateway, is_visible, headers_ok, with_body, or_bare_500,
}
use app_gate.RustGateway.Router.{Router, select}
use app_gate.RustGateway.Proxy.{to_string, upstream, forwarded, forward, respond}
use app_gate.RustGateway.Server.{
  max_body_bytes, error_body, proxy_request, send_proxy_request, proxy_body, upstream_or_local,
  forwarded_or_error, proxy_collected, handle_proxy,
}
use app_gate.RustGateway.Server.Responses.{
  local, id_headers, id_headers-IsPlainHeader, relay_headers, headers_ok_plain, proxy_error_built,
  relayed_built,
}

-- The body was read and is no longer than the limit.
abbrev pub Fits : Result Bytes String → Type 0
Fits (err e) = ⊥
Fits (ok body) = length body ≤ max_body_bytes

-- The request that goes out: no body, and two headers of the gateway's own.
abbrev pub outgoing : String → String → String → UpstreamRequest
outgoing method url request_id = record {
  method = method;
  url = url;
  headers = id_headers request_id;
  body = [];
}

abbrev pub bad_gateway : String → String → Response
bad_gateway request_id e = local 502 (id_headers request_id) (
    error_body "upstream_error" ("Upstream request failed: " +++ ("upstream error: " +++ e))
      request_id)

abbrev pub relayed_body : String → ℕ → Result Bytes String → Response
relayed_body request_id status (err e) = bad_gateway request_id e
relayed_body request_id status (ok body) = record {
  status = status;
  headers = relay_headers;
  body = body;
}

-- The answer to an outcome of the transport.
abbrev pub relayed : HttpCrate → String → Result UpstreamResponse String → Response
relayed http request_id (err e) = bad_gateway request_id e
relayed http request_id (ok resp) =
    relayed_body request_id (status_or_bad_gateway (http.from_u16 resp.status)) resp.body

-- The answer to a body that was not read, or is too long.
abbrev pub refusal : String → Result Bytes String → Response
refusal request_id (err e) =
    local 400 (id_headers request_id)
      (error_body "bad_request" "Failed to read request body" request_id)
refusal request_id (ok body) =
    local 413 (id_headers request_id)
      (error_body "payload_too_large" "Body exceeds 10485760 bytes" request_id)

ltb-Fits : (body : Bytes) → Fits (ok body) → ltb max_body_bytes (length body) ≡ false
ltb-Fits body h = ground arith

ltb-unfit : (body : Bytes) → ¬ Fits (ok body) → ltb max_body_bytes (length body) ≡ true
ltb-unfit body h = ground arith

forwarded-id_headers :
    (request_id : String) → forwarded (id_headers request_id) ≡ id_headers request_id
unfolding forwarded filter contains any
forwarded-id_headers request_id = refl

module _ (http : HttpCrate) (send : Send) (router : Router) where
  -- What the handler does with a body that fits.
  abbrev pub sent : String → String → String → Bytes → Option Response
  sent method url request_id body =
      send_proxy_request http send router request_id url
        (proxy_request http send router method url request_id body)

  sent_blind :
      (method url request_id : String) (b c : Bytes)
      → sent method url request_id b ≡ sent method url request_id c
  unfolding forward
  sent_blind method url request_id b c =
      elim (Bool-cases (http.uri_ok url && headers_ok http (id_headers request_id))) [
        | inl h ↦ simp h refl
        | inr h ↦ simp h refl
      ]

  abbrev pub url_of : String → String
  url_of path = upstream_or_local http send router (select router path)

  pub proxy_body-Fits :
      (req : Request) (request_id : String) (body : Bytes)
      → Fits (ok body)
      → proxy_body http send router req request_id body
        ≡ sent req.method (url_of req.path) request_id body
  proxy_body-Fits req request_id body h = simp (ltb-Fits body h) refl

  blind_collected :
      (r s : Request) (request_id : String) (x y : Result Bytes String)
      → r.method ≡ s.method
      → r.path ≡ s.path
      → Fits x
      → Fits y
      → proxy_collected http send router r request_id x
        ≡ proxy_collected http send router s request_id y
  blind_collected r s request_id (err e) y m p f g = absurd f
  blind_collected r s request_id (ok b) (err e) m p f g = absurd g
  blind_collected r s request_id (ok b) (ok c) m p f g =
      proxy_body-Fits r request_id b f
      ∙ (sent_blind r.method (url_of r.path) request_id b c
          ∙ (ap (λ k. sent k (url_of r.path) request_id c) m
              ∙ (ap (λ k. sent s.method (url_of k) request_id c) p
                  ∙ sym (proxy_body-Fits s request_id c g))))

  -- Two requests with one method and one path whose bodies are read and within the limit get one
  -- answer: no header (so no credential), no query and no byte of the body makes a difference.
  pub handle_proxy_blind :
      (r s : Request) (request_id : String)
      → r.method ≡ s.method
      → r.path ≡ s.path
      → Fits r.body
      → Fits s.body
      → handle_proxy http send router r request_id ≡ handle_proxy http send router s request_id
  unfolding handle_proxy
  handle_proxy_blind r s request_id m p f g = blind_collected r s request_id r.body s.body m p f g

  module _ (laws : HttpLaws http) (request_id : String)
      (visible : is_visible request_id ≡ true) where
    respond_body :
        (status : ℕ) (body : Result Bytes String)
        → forwarded_or_error http send router request_id (
            map_err upstream body >>= λ b.
            ok (
              or_bare_500 (with_body http b (record { status = status; headers = relay_headers }))))
          ≡ some (relayed_body request_id status body)
    unfolding to_string
    respond_body status (err e) = proxy_error_built http laws 502 _ _ request_id visible
    respond_body status (ok body) =
        ap (λ o. some (or_bare_500 o)) (relayed_built http laws status body)

    pub relay_outcome :
        (outcome : Result UpstreamResponse String)
        → forwarded_or_error http send router request_id
            (map_err upstream outcome >>= λ resp. respond http send resp)
          ≡ some (relayed http request_id outcome)
    unfolding to_string respond
    relay_outcome (err e) = proxy_error_built http laws 502 _ _ request_id visible
    relay_outcome (ok resp) =
        respond_body (status_or_bad_gateway (http.from_u16 resp.status)) resp.body

    sent_relays :
        (method url : String) (body : Bytes)
        → http.uri_ok url ≡ true
        → http.from_bytes method ≡ ok method
        → sent method url request_id body
          ≡ some (relayed http request_id (send (outgoing method url request_id)))
    unfolding forward
    sent_relays method url body u m =
        let headers =
          headers_ok_plain http laws (id_headers request_id)
            (id_headers-IsPlainHeader request_id visible) in
        simp (u, headers, m, forwarded-id_headers request_id)
          (relay_outcome (send (outgoing method url request_id)))

    collected_relays :
        (req : Request) (body : Result Bytes String) (url : String)
        → select router req.path ≡ some url
        → http.uri_ok url ≡ true
        → http.from_bytes req.method ≡ ok req.method
        → Fits body
        → proxy_collected http send router req request_id body
          ≡ some (relayed http request_id (send (outgoing req.method url request_id)))
    collected_relays req (err e) url p u m f = absurd f
    collected_relays req (ok body) url p u m f =
        proxy_body-Fits req request_id body f
        ∙ (ap (λ k. sent req.method k request_id body) (ap (upstream_or_local http send router) p)
            ∙ sent_relays req.method url body u m)

    -- For a request with a visible identifier, a method that the client takes, a body that fits and
    -- an upstream chosen by its path whose address is a URI, the handler answers by what the
    -- transport gives for a request to that upstream, with the method of the caller, two headers of
    -- the gateway's own and no body: with the status (502 for what is no status) and the body that
    -- come back, under two headers, or with a 502 that names the error.
    pub handle_proxy_relays :
        (req : Request) (url : String)
        → select router req.path ≡ some url
        → http.uri_ok url ≡ true
        → http.from_bytes req.method ≡ ok req.method
        → Fits req.body
        → handle_proxy http send router req request_id
          ≡ some (relayed http request_id (send (outgoing req.method url request_id)))
    unfolding handle_proxy
    handle_proxy_relays req url p u m f = collected_relays req req.body url p u m f

    collected_refuses :
        (req : Request) (body : Result Bytes String)
        → ¬ Fits body
        → proxy_collected http send router req request_id body ≡ some (refusal request_id body)
    collected_refuses req (err e) f = proxy_error_built http laws 400 _ _ request_id visible
    collected_refuses req (ok body) f =
        simp (ltb-unfit body f) (proxy_error_built http laws 413 _ _ request_id visible)

    -- A body that cannot be read is answered by a 400 and one above the limit by a 413, whatever
    -- the upstream, the transport and the rest of the request, if the identifier of the request is
    -- visible.
    pub handle_proxy_refuses :
        (req : Request)
        → ¬ Fits req.body
        → handle_proxy http send router req request_id ≡ some (refusal request_id req.body)
    unfolding handle_proxy
    handle_proxy_refuses req f = collected_refuses req req.body f
