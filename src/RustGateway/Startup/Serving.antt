-- ===== src/RustGateway/Startup/Serving.antt =====
-- What a process that rust-gateway/src/main.rs started does with a proxied request: start, router
-- and server together.
use text.Mathlib.Text.{starts_with}
use app_gate.Base.{
  ℕ, String, ◌≡◌, refl, sym, ap, ◌∙◌, inl, inr, true, Bool-cases, none, some, if_true, if_false,
  if◌then◌else◌,
}
use app_gate.Base.Governor.{Governor}
use app_gate.Base.Http.{Bytes, HttpCrate, HttpLaws, Request, is_visible}
use app_gate.Base.Jwt.{Jsonwebtoken}
use app_gate.Base.Moka.{Moka}
use app_gate.Base.Reqwest.{Reqwest}
use app_gate.Base.Result.{Result, ok}
use app_gate.RustGateway.Cache.{CachedResponse}
use app_gate.RustGateway.Config.{GatewayConfig, from_env}
use app_gate.RustGateway.RateLimit.{Redis}
use app_gate.RustGateway.Router
use app_gate.RustGateway.Router.{Router, select, select_from, parse_routes}
use app_gate.RustGateway.Server.{handle_proxy, proxy_error_response}
use app_gate.RustGateway.Server.Upstream.{Fits, outgoing, relayed, handle_proxy_relays}
use app_gate.RustGateway.Server.Unroutable.{handle_proxy_unroutable}
use app_gate.RustGateway.Startup.{AppState, start_up}
use app_gate.RustGateway.Startup.Initial.{start_up-IsStarted}

-- Without routes of its own, a router sends every path to the default upstream.
select-new :
    (config : GatewayConfig) (path : String)
    → select (Router.new config none) path ≡ some config.upstream.default_url
unfolding select select_from Router.new parse_routes
select-new config path = elim (Bool-cases (starts_with path "/v1/chat/completions")) [
  | inl matching ↦ simp (matching) refl
  | inr other ↦ simp (other) refl
]

abbrev pub default_url : {E : Type 0} → Result GatewayConfig E → String
default_url parsed = (from_env parsed).upstream.default_url

module _ {K S L M A E : Type 0} (jwt : Jsonwebtoken K) (read : String → Result Bytes String)
    (redis : Redis S) (governor : Governor L) (connect : String → Result S String)
    (moka : Moka M CachedResponse) (reqwest : Reqwest) (now : ℕ)
    (parsed : Result GatewayConfig E) where
  start_up-router :
      (s : AppState K S L M A)
      → start_up jwt read redis governor connect moka reqwest now parsed none ≡ ok s
      → s.router ≡ Router.new (from_env parsed) none
  start_up-router s h = sym (
      ap (λ t. t.router)
        (start_up-IsStarted A jwt read redis governor connect moka reqwest now parsed none s
          h).same)

module _ {K S L M A E : Type 0} (jwt : Jsonwebtoken K) (read : String → Result Bytes String)
    (redis : Redis S) (governor : Governor L) (connect : String → Result S String)
    (moka : Moka M CachedResponse) (reqwest : Reqwest) (now : ℕ) (parsed : Result GatewayConfig E)
    (http : HttpCrate) (laws : HttpLaws http) where
  -- A process that started without `APPGATE_ROUTES` answers a proxied request whose body fits,
  -- whose method its client takes and whose identifier is visible with what its client gives for
  -- the request to the default upstream, if the address of that is a URI, and with a 500 if it is
  -- none: whatever the path.
  pub start_up-serves :
      (s : AppState K S L M A) (req : Request) (request_id : String)
      → start_up jwt read redis governor connect moka reqwest now parsed none ≡ ok s
      → is_visible request_id ≡ true
      → http.from_bytes req.method ≡ ok req.method
      → Fits req.body
      → handle_proxy http s.proxy_client s.router req request_id ≡ (
          if http.uri_ok (default_url parsed)
          then some (
              relayed http request_id
                (s.proxy_client (outgoing req.method (default_url parsed) request_id)))
          else proxy_error_response http 500 "internal_error" "Failed to build upstream request"
              request_id)
  start_up-serves s req request_id started visible method fits =
      let routed : select s.router req.path ≡ some (default_url parsed) =
        ap (λ r. select r req.path)
          (start_up-router jwt read redis governor connect moka reqwest now parsed s started)
        ∙ select-new (from_env parsed) req.path in
      elim (Bool-cases (http.uri_ok (default_url parsed))) [
        | inl good ↦
            handle_proxy_relays http s.proxy_client s.router laws request_id visible req
              (default_url parsed) routed good method fits
            ∙ sym (if_true _ _ good)
        | inr bad ↦
            handle_proxy_unroutable http s.proxy_client s.router req (default_url parsed) request_id
              routed bad fits
            ∙ sym (if_false _ _ bad)
      ]
