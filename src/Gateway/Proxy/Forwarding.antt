-- ===== src/Gateway/Proxy/Forwarding.antt =====
-- What the proxy sends upstream, and what it answers.
use app_gate.Base.{
  ℕ, String, ◌≡◌, refl, ap, ◌∙◌, Bool, false, if◌then◌else◌, true, Option, none, some, [], ◌∷◌,
  ◌++◌, ◌+++◌, arith,
}
use app_gate.Base.Assoc.{lookup}
use app_gate.Base.Result.{Result, ok, err, map_err, ◌>>=◌}
use app_gate.Base.Http.{
  Bytes, bytes_of, Headers, Response, Request, UpstreamRequest, UpstreamResponse, HttpCrate,
  HttpLaws, Send, builder, with_status, with_header, with_body, or_bare_500, status_or_bad_gateway,
  is_token, is_visible,
}
use app_gate.Gateway.Proxy.{
  ProxyError, upstream, internal, to_string, forwarded, with_optional, readable, respond, forward,
  failed, or_failed,
}

-- The request that goes out: the caller's listed headers, and no body.
abbrev pub outgoing : Request → String → UpstreamRequest
outgoing req url = record {
  method = req.method;
  url = url;
  headers = forwarded req.headers;
  body = [];
}

abbrev pub bad_gateway : String → ProxyError → Response
bad_gateway code e = record {
  status = 502;
  headers = ("content-type", "application/json") ∷ [];
  body = bytes_of ("{\"error\":\"" +++ code +++ "\",\"message\":\"" +++ to_string e +++ "\"}");
}

-- The header that a builder gets of an optional value.
abbrev piece : String → Option String → Headers
piece name none = []
piece name (some value) = (name, value) ∷ []

-- A header is kept if the answer has it with a value that can be read.
abbrev pub kept : HttpCrate → String → Option String → Headers
kept http name none = []
kept http name (some value) = if http.to_str value then (name, value) ∷ [] else []

piece_if :
    (name value : String) (b : Bool)
    → piece name (if b then some value else none) ≡ (if b then (name, value) ∷ [] else [])
piece_if name value true = refl
piece_if name value false = refl

piece-kept :
    (http : HttpCrate) (name : String) (o : Option String)
    → piece name (readable http o) ≡ kept http name o
piece-kept http name none = refl
piece-kept http name (some value) = piece_if name value (http.to_str value)

-- The headers of an answer: a mark, and what the upstream said of its content.
abbrev pub relay_headers : HttpCrate → Headers → Headers
relay_headers http headers =
    ("x-appgate-proxy", "1")
    ∷ (kept http "content-type" (lookup "content-type" headers)
        ++ kept http "cache-control" (lookup "cache-control" headers))

abbrev pub relayed_body : HttpCrate → String → ℕ → Headers → Result Bytes String → Response
relayed_body http code status headers (err e) = bad_gateway code (upstream e)
relayed_body http code status headers (ok body) = record {
  status = status;
  headers = relay_headers http headers;
  body = body;
}

abbrev pub relayed : HttpCrate → String → Result UpstreamResponse String → Response
relayed http code (err e) = bad_gateway code (upstream e)
relayed http code (ok resp) =
    relayed_body http code (status_or_bad_gateway (http.from_u16 resp.status)) resp.headers
      resp.body

readable-header_ok :
    (http : HttpCrate) (laws : HttpLaws http) (name value : String) (o : Option String)
    → is_token name ≡ true
    → readable http o ≡ some value
    → http.header_ok name value ≡ true
readable-header_ok http laws name value none t h = cc
readable-header_ok http laws name value (some v) t h =
    grind (arith, laws.readable_header name value t)

module _ (http : HttpCrate) (laws : HttpLaws http) (send : Send) where
  mark_ok : http.header_ok "x-appgate-proxy" "1" ≡ true
  unfolding is_token is_visible
  mark_ok = laws.plain_header _ _ refl refl

  pub failed_built :
      (code : String) (e : ProxyError) → failed http send code e ≡ some (bad_gateway code e)
  unfolding with_body is_token is_visible
  failed_built code e = simp (laws.plain_header "content-type" "application/json" refl refl) refl

  built :
      (ct cc : Option String) (status : ℕ) (body : Bytes)
      → ((v : String) → ct ≡ some v → http.header_ok "content-type" v ≡ true)
      → ((v : String) → cc ≡ some v → http.header_ok "cache-control" v ≡ true)
      → with_body http body (
          with_optional "cache-control" cc (
            with_optional "content-type" ct
              (with_header "x-appgate-proxy" "1" (with_status status builder))))
        ≡ some (record {
          status = status;
          headers =
              ("x-appgate-proxy", "1") ∷ (piece "content-type" ct ++ piece "cache-control" cc);
          body = body;
        })
  unfolding with_body
  built none none status body f g = simp mark_ok refl
  built none (some c) status body f g = simp (mark_ok, g c refl) refl
  built (some t) none status body f g = simp (mark_ok, f t refl) refl
  built (some t) (some c) status body f g = simp (mark_ok, f t refl, g c refl) refl

  respond_relays :
      (code : String) (resp : UpstreamResponse) (body : Result Bytes String)
      → or_failed http send code (
          map_err upstream body >>= λ b. ok (
            or_bare_500 (
              with_body http b (
                with_optional "cache-control"
                  (readable http (lookup "cache-control" resp.headers))
                  (with_optional "content-type"
                    (readable http (lookup "content-type" resp.headers))
                    (with_header "x-appgate-proxy" "1" (
                      with_status (status_or_bad_gateway (http.from_u16 resp.status)) builder)))))))
        ≡ some (
            relayed_body http code
              (status_or_bad_gateway (http.from_u16 resp.status))
              resp.headers
              body)
  unfolding is_token
  respond_relays code resp (err e) = failed_built code (upstream e)
  respond_relays code resp (ok body) =
      ap (λ o. some (or_bare_500 o))
        (built _ _ _ body (λ v. readable-header_ok http laws "content-type" v _ refl)
          (λ v. readable-header_ok http laws "cache-control" v _ refl))
      ∙ ap
          (λ headers. some (record {
            status = status_or_bad_gateway (http.from_u16 resp.status);
            headers = headers;
            body = body;
          }))
          (λ i.
            ("x-appgate-proxy", "1")
            ∷ (piece-kept http "content-type" (lookup "content-type" resp.headers) i
                ++ piece-kept http "cache-control" (lookup "cache-control" resp.headers) i))

  outcome_relays :
      (code : String) (outcome : Result UpstreamResponse String)
      → or_failed http send code (map_err upstream outcome >>= λ resp. respond http send resp)
        ≡ some (relayed http code outcome)
  unfolding respond
  outcome_relays code (err e) = failed_built code (upstream e)
  outcome_relays code (ok resp) = respond_relays code resp resp.body

  -- A request whose method the client takes goes upstream with its method, its listed headers and
  -- no body, and the answer is what comes back, with its readable content headers, or a 502 that
  -- names the error.
  pub forward-relays :
      (code : String) (req : Request) (url : String)
      → http.from_bytes req.method ≡ ok req.method
      → or_failed http send code (forward http send req url)
        ≡ some (relayed http code (send (outgoing req url)))
  unfolding forward
  forward-relays code req url m = simp m (outcome_relays code (send (outgoing req url)))

  answered_body :
      (code : String) (body : Result Bytes String) (k : Bytes → Response)
      → (r : Response) × (or_failed http send code (map_err upstream body >>= λ b. ok (k b))
          ≡ some r)
  answered_body code (err e) k = (_, failed_built code (upstream e))
  answered_body code (ok b) k = (k b, refl)

  answered_outcome :
      (code : String) (outcome : Result UpstreamResponse String)
      → (r : Response) × (or_failed http send code
            (map_err upstream outcome >>= λ resp. respond http send resp)
          ≡ some r)
  unfolding respond
  answered_outcome code (err e) = (_, failed_built code (upstream e))
  answered_outcome code (ok resp) = answered_body code resp.body _

  answered_method :
      (code : String) (method : Result String String) (to : String → UpstreamRequest)
      → (r : Response) × (or_failed http send code (
            map_err internal method >>= λ m.
            map_err upstream (send (to m)) >>= λ resp. respond http send resp)
          ≡ some r)
  answered_method code (err e) to = (_, failed_built code (internal e))
  answered_method code (ok m) to = answered_outcome code (send (to m))

  -- Whatever the method and whatever comes back, the proxy answers.
  pub forward-answers :
      (code : String) (req : Request) (url : String)
      → (r : Response) × (or_failed http send code (forward http send req url) ≡ some r)
  unfolding forward
  forward-answers code req url = answered_method code (http.from_bytes req.method) _
