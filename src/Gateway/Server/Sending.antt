-- ===== src/Gateway/Server/Sending.antt =====
-- What the handler of gateway/src/server.rs sends for a request that it does not serve itself, by a
-- description of its own of the address and of the headers that pass.
use app_gate.Base.{
  eq_iff, ◌⊎◌, String, ◌≡◌, refl, sym, ap, ◌∙◌, ◌↔◌, Bool, true, false, Bool-cases, inl, inr,
  Option, none, some, [], arith, ◌∷◌, ◌+++◌, contains, contains_iff, filter, Any, trim_end_matches,
}
use mathlib.Core.Bool.{false≢true}
use mathlib.Core.Path.{subst}
use text.Mathlib.TextLemmas.{append-nil}
use app_gate.Base.Result.{ok}
use app_gate.Base.Http.{Headers, Request, UpstreamRequest, HttpCrate, HttpLaws, Send}
use app_gate.Gateway.Proxy.{forwarded_names, forwarded}
use app_gate.Gateway.Proxy.Forwarding.{outgoing, relayed}
use app_gate.Gateway.Server.{query_or_empty, upstream_url_of, handle_request}
use app_gate.Gateway.Server.Passthrough.{is_local, handle_request_relays}

-- The names that may pass to the upstream.
abbrev pub IsListed : String → Type 0
IsListed name =
    Any (λ x. x ≡ name)
      ("authorization" ∷ "content-type" ∷ "x-request-id" ∷ "accept" ∷ "x-api-key" ∷ "x-tenant-id"
        ∷ "user-agent" ∷ [])

-- The second list is what is left of the first, in its order: a header that is listed stays, with
-- its value, and every other goes.
pub data Selects : Headers → Headers → Type 0 where
  nothing : Selects [] []
  stays :
      {name value : String} {from to : Headers}
      → IsListed name
      → Selects from to
      → Selects ((name, value) ∷ from) ((name, value) ∷ to)
  goes :
      {name value : String} {from to : Headers}
      → ¬ IsListed name
      → Selects from to
      → Selects ((name, value) ∷ from) to

-- The path behind the base without its slashes, and behind that the query, if there is one.
abbrev pub IsAddress : String → String → Option String → String → Type 0
IsAddress base path none url = url ≡ trim_end_matches b'/' base +++ path
IsAddress base path (some query) url =
    url ≡ trim_end_matches b'/' base +++ (path +++ ("?" +++ query))

pub record IsForwarding (base : String) (req : Request) (sent : UpstreamRequest) : Type 0 where
  pub method : sent.method ≡ req.method
  pub address : IsAddress base req.path req.query sent.url
  pub headers : Selects req.headers sent.headers
  pub body : sent.body ≡ []

contains-IsListed : (name : String) → (contains forwarded_names name ≡ true) ↔ IsListed name
contains-IsListed name = contains_iff forwarded_names name

filter_kept :
    (f : String × String → Bool) (h : String × String) (rest : Headers)
    → f h ≡ true
    → filter f (h ∷ rest) ≡ h ∷ filter f rest
unfolding filter
filter_kept f h rest e = ground arith

filter_dropped :
    (f : String × String → Bool) (h : String × String) (rest : Headers)
    → f h ≡ false
    → filter f (h ∷ rest) ≡ filter f rest
unfolding filter
filter_dropped f h rest e = ground arith

forwarded_kept :
    (name value : String) (rest : Headers)
    → contains forwarded_names name ≡ true
    → forwarded ((name, value) ∷ rest) ≡ (name, value) ∷ forwarded rest
unfolding forwarded
forwarded_kept name value rest h =
    filter_kept (λ h. contains forwarded_names h.0) (name, value) rest h

forwarded_dropped :
    (name value : String) (rest : Headers)
    → contains forwarded_names name ≡ false
    → forwarded ((name, value) ∷ rest) ≡ forwarded rest
unfolding forwarded
forwarded_dropped name value rest h =
    filter_dropped (λ h. contains forwarded_names h.0) (name, value) rest h

forwarded-Selects : (headers : Headers) → Selects headers (forwarded headers)
unfolding forwarded filter
forwarded-Selects [] = nothing
forwarded-Selects ((name, value) ∷ rest) = elim (Bool-cases (contains forwarded_names name)) [
  | inl listed ↦
      subst (Selects ((name, value) ∷ rest)) (sym (forwarded_kept name value rest listed))
        (stays ((contains-IsListed name).0 listed) (forwarded-Selects rest))
  | inr other ↦
      subst (Selects ((name, value) ∷ rest)) (sym (forwarded_dropped name value rest other))
        (goes (λ p. false≢true (sym other ∙ (contains-IsListed name).1 p)) (forwarded-Selects rest))
]

query_or_empty-IsAddress :
    (base path : String) (query : Option String)
    → IsAddress base path query (trim_end_matches b'/' base +++ (path +++ query_or_empty query))
query_or_empty-IsAddress base path none =
    ap (λ s. trim_end_matches b'/' base +++ s) (append-nil path)
query_or_empty-IsAddress base path (some query) = refl

outgoing-IsForwarding :
    (base : String) (req : Request)
    → IsForwarding base req (outgoing req (upstream_url_of base req))
unfolding upstream_url_of
outgoing-IsForwarding base req = record {
  method = refl;
  address = query_or_empty-IsAddress base req.path req.query;
  headers = forwarded-Selects req.headers;
  body = refl;
}

-- A request to one of the three routes that the gateway serves itself.
abbrev pub IsOwn : Request → Type 0
IsOwn req =
    (req.method ≡ "GET")
    × ((req.path ≡ "/healthz") ⊎ (req.path ≡ "/readyz") ⊎ (req.path ≡ "/metrics"))

module _ (http : HttpCrate) (laws : HttpLaws http) (send : Send) where
  is_local_of : (req : Request) → ¬ IsOwn req → is_local http laws send req ≡ false
  is_local_of req other = ground (
    arith,
    other,
    eq_iff req.method "GET",
    eq_iff req.path "/healthz",
    eq_iff req.path "/readyz",
    eq_iff req.path "/metrics",
  )

  -- A request whose method the client takes, and that is not one of the three that the gateway
  -- serves itself, is answered by what the transport gives for a request to the upstream: with the
  -- method, with the path and the query behind the base without its last slashes, with those
  -- headers, in their order, that are among the seven that pass, and without a body. The answer has
  -- the status of the upstream (502 for what is no status), its body, and its content type and
  -- cache control where they can be read; or it is a 502 that names the error.
  pub handle_request-IsForwarding :
      (metrics : String) (req : Request) (base : String)
      → ¬ IsOwn req
      → http.from_bytes req.method ≡ ok req.method
      → (sent : UpstreamRequest) × IsForwarding base req sent
        × (handle_request http send metrics req base
            ≡ some (relayed http "upstream_failure" (send sent)))
  handle_request-IsForwarding metrics req base other m = (
    outgoing req (upstream_url_of base req),
    outgoing-IsForwarding base req,
    handle_request_relays http laws send metrics req base (is_local_of req other) m,
  )
