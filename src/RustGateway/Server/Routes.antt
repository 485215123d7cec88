-- ===== src/RustGateway/Server/Routes.antt =====
-- The routes of rust-gateway/src/server.rs: their responses and the headers these carry.
use app_gate.Base.{
  ℕ, String, ◌≡◌, refl, ap, ◌⊎◌, ◌↔◌, inl, inr, Bool, true, false, ◌||◌, Option, some, List, [],
  ◌∷◌, ◌++◌, eq_iff, arith, Bool-cases, ltb, length, if◌then◌else◌,
}
use app_gate.Base.Result.{Result, ok, err, map_err, ◌>>=◌}
use app_gate.Base.Http.{
  Bytes, Headers, Response, Request, UpstreamRequest, UpstreamResponse, HttpCrate, HttpLaws, Send,
  is_visible,
}
use app_gate.RustGateway.Router.{Router}
use app_gate.RustGateway.Proxy.{upstream, internal, to_string, forward, respond}
use app_gate.RustGateway.Server.{
  max_body_bytes, proxy_error_response, proxy_body, proxy_collected, handle_proxy,
  forwarded_or_error, route_request, handle_request, is_at, recorded,
}
use app_gate.RustGateway.Server.Responses.{
  local, id_headers, security_headers, relay_headers, headers_ok_plain, id_headers-IsPlainHeader,
  health_built, ready_built, metrics_built, not_found_built, proxy_error_built,
}
use app_gate.RustGateway.Server.Upstream.{sent, relayed, relayed_body, relay_outcome}

abbrev pub IsSecured : Response → Type 0
IsSecured r = (rest : Headers) × (r.headers ≡ security_headers ++ rest)

-- The two routes that are forwarded.
abbrev pub IsProxied : Request → Type 0
IsProxied req =
    (req.method ≡ "POST") × ((req.path ≡ "/v1/proxy") ⊎ (req.path ≡ "/v1/chat/completions"))

abbrev Answered : Type 0 → Option Response → Type 0
Answered P o = (r : Response) × (o ≡ some r) × (IsSecured r ⊎ ((r.headers ≡ relay_headers) × P))

secured :
    {P : Type 0} (o : Option Response) (status : ℕ) (headers : Headers) (body : String)
    → o ≡ some (local status headers body)
    → Answered P o
secured o status headers body e = (local status headers body, e, inl (headers, refl))

is_at_iff :
    (req : Request) (method path : String)
    → (is_at req method path ≡ true) ↔ ((req.method ≡ method) × (req.path ≡ path))
is_at_iff req method path = ground (arith, eq_iff req.method method, eq_iff req.path path)

is_at-IsProxied :
    (req : Request)
    → (is_at req "POST" "/v1/proxy" || is_at req "POST" "/v1/chat/completions") ≡ true
    → IsProxied req
is_at-IsProxied req h =
    ground (arith, is_at_iff req "POST" "/v1/proxy", is_at_iff req "POST" "/v1/chat/completions")

module _ (http : HttpCrate) (laws : HttpLaws http) (send : Send) (router : Router)
    (request_id : String) (visible : is_visible request_id ≡ true) where
  error-Answered :
      {P : Type 0} (status : ℕ) (code message : String)
      → Answered P (proxy_error_response http status code message request_id)
  error-Answered status code message =
      secured _ status _ _ (proxy_error_built http laws status code message request_id visible)

  relayed_body-Answered :
      {P : Type 0} (status : ℕ) (body : Result Bytes String)
      → P
      → Answered P (some (relayed_body request_id status body))
  relayed_body-Answered status (err e) p = secured _ 502 _ _ refl
  relayed_body-Answered status (ok body) p = (_, refl, inr (refl, p))

  relayed-Answered :
      {P : Type 0} (outcome : Result UpstreamResponse String)
      → P
      → Answered P (some (relayed http request_id outcome))
  relayed-Answered (err e) p = secured _ 502 _ _ refl
  relayed-Answered (ok resp) p = relayed_body-Answered _ resp.body p

  -- The method is parsed once more before the request goes out.
  forward-Answered :
      {P : Type 0} (method : Result String String) (to : String → UpstreamRequest)
      → P
      → Answered P (
          forwarded_or_error http send router request_id (
            map_err internal method >>= λ m.
            map_err upstream (send (to m)) >>= λ resp. respond http send resp))
  unfolding to_string
  forward-Answered (err e) to p = error-Answered 502 _ _
  forward-Answered (ok m) to p =
      let outcome = send (to m) in
      rw (relay_outcome http send router laws request_id visible outcome)
        (relayed-Answered outcome p)

  sent-Answered :
      {P : Type 0} (method url : String) (body : Bytes)
      → P
      → Answered P (sent http send router method url request_id body)
  unfolding forward
  sent-Answered method url body p =
      let headers =
        headers_ok_plain http laws (id_headers request_id)
          (id_headers-IsPlainHeader request_id visible) in
      elim (Bool-cases (http.uri_ok url)) [
        | inl h ↦ simp (h, headers) (forward-Answered (http.from_bytes method) _ p)
        | inr h ↦ simp (h, headers) (error-Answered 500 _ _)
      ]

  body-Answered :
      {P : Type 0} (req : Request) (body : Bytes)
      → P
      → Answered P (proxy_body http send router req request_id body)
  body-Answered req body p = elim (Bool-cases (ltb max_body_bytes (length body))) [
    | inl h ↦ simp h (error-Answered 413 _ _)
    | inr h ↦ simp h (sent-Answered req.method _ body p)
  ]

  collected-Answered :
      {P : Type 0} (req : Request) (body : Result Bytes String)
      → P
      → Answered P (proxy_collected http send router req request_id body)
  collected-Answered req (err e) p = error-Answered 400 _ _
  collected-Answered req (ok body) p = body-Answered req body p

  -- The guards of `route_request`, in order.
  guarded :
      {P : Type 0} (health ready metrics proxied : Bool) (h r m p n : Option Response)
      → Answered P h
      → Answered P r
      → Answered P m
      → (proxied ≡ true → Answered P p)
      → Answered P n
      → Answered P (
          if health
          then h
          else if ready
          then r
          else if metrics
          then m
          else if proxied
          then p
          else n)
  guarded true r m p _ _ _ _ _ h' r' m' p' n' = h'
  guarded false true m p _ _ _ _ _ h' r' m' p' n' = r'
  guarded false false true p _ _ _ _ _ h' r' m' p' n' = m'
  guarded false false false true _ _ _ _ _ h' r' m' p' n' = p' refl
  guarded false false false false _ _ _ _ _ h' r' m' p' n' = n'

  route-Answered :
      (metrics : String) (req : Request)
      → Answered (IsProxied req) (route_request http send router metrics req request_id)
  unfolding route_request handle_proxy
  route-Answered metrics req =
      guarded _ _ _ _ _ _ _ _ _ (secured _ 200 _ _ (health_built http laws))
        (secured _ 200 _ _ (ready_built http laws))
        (secured _ 200 _ _ (metrics_built http laws metrics))
        (λ h. collected-Answered req req.body (is_at-IsProxied req h))
        (secured _ 404 _ _ (not_found_built http laws request_id visible))

  -- Every request is answered, without a panic, and recorded once with the status of its answer.
  -- The answer carries the six security headers, unless it is relayed from an upstream: then the
  -- request is a POST on one of the two forwarded routes and the answer has none of the six.
  pub handle_request_answers :
      (metrics : String) (completed : List (String × ℕ)) (req : Request)
      → (r : Response) × (handle_request http send router metrics completed req request_id
          ≡ some (r, completed ++ (req.path, r.status) ∷ []))
        × (IsSecured r ⊎ ((r.headers ≡ relay_headers) × IsProxied req))
  unfolding handle_request
  handle_request_answers metrics completed req =
      let (r, e, headers) = route-Answered metrics req in
      (r, ap (recorded http send router req.path completed) e, headers)
