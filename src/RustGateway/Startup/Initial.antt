-- ===== src/RustGateway/Startup/Initial.antt =====
-- When rust-gateway/src/main.rs starts, and what it starts with.
use app_gate.Base.{ℕ, String, ◌≡◌, ◌⊎◌, Option, some, ◌+++◌}
use app_gate.Base.Governor.{Governor}
use app_gate.Base.Http.{Bytes, Send}
use app_gate.Base.Jwt.{Jsonwebtoken, JsonwebtokenLaws}
use app_gate.Base.Moka.{Moka}
use app_gate.Base.Reqwest.{Reqwest}
use app_gate.Base.Result.{Result, ok, map_err, or_else, ok_of_bind, ok_of_map_err, ok_inj}
use app_gate.RustGateway.Cache.{CachedResponse}
use app_gate.RustGateway.Config.{GatewayConfig, JwtConfig, from_env}
use app_gate.RustGateway.Health
use app_gate.RustGateway.Jwt
use app_gate.RustGateway.Jwt.{JwtValidator}
use app_gate.RustGateway.Proxy
use app_gate.RustGateway.RateLimit.{Redis}
use app_gate.RustGateway.Router
use app_gate.RustGateway.Startup.{AppState, exit_code, panicked, initial, start_up}

-- A key file that is configured, can be read and holds an Ed25519, RSA or EC key.
pub record HasKey {K : Type 0} (jwt : Jsonwebtoken K) (read : String → Result Bytes String)
    (config : JwtConfig) : Type 0 where
  pub path : String
  pub pem : Bytes
  pub key : K
  pub configured : config.key_path ≡ some path
  pub was_read : read path ≡ ok pem
  pub parsed :
      (jwt.from_ed_pem pem ≡ ok key)
      ⊎ (jwt.from_rsa_pem pem ≡ ok key)
      ⊎ (jwt.from_ec_pem pem ≡ ok key)

-- The three clients can be built.
pub record HasClients (reqwest : Reqwest) (config : GatewayConfig) : Type 0 where
  pub checking : Send
  pub routing : Send
  pub proxying : Send
  pub checks : reqwest.build Health.client_settings ≡ ok checking
  pub routes : reqwest.build (Router.client_settings config.upstream) ≡ ok routing
  pub proxies : reqwest.build Proxy.settings ≡ ok proxying

module _ {K : Type 0} where
  abbrev tried : Result K String → Result K String → Result K String → Result K String
  tried ed rsa ec =
      map_err (λ e. "Unsupported PEM format: " +++ e) (or_else (λ _. ec) (or_else (λ _. rsa) ed))

module _ (A : Type 0) {K S L M E : Type 0} (jwt : Jsonwebtoken K)
    (read : String → Result Bytes String) (redis : Redis S) (governor : Governor L)
    (connect : String → Result S String) (moka : Moka M CachedResponse) (reqwest : Reqwest)
    (now : ℕ) (parsed : Result GatewayConfig E) (route_env : Option String) where
  abbrev cfg : GatewayConfig
  cfg = from_env parsed

  abbrev first_state : JwtValidator K → Send → AppState K S L M A
  first_state v client =
      initial jwt read redis governor connect moka reqwest now cfg route_env v client

  -- What a state that was reached is made of.
  pub record IsStarted (s : AppState K S L M A) : Type 0 where
    pub validator : JwtValidator K
    pub clients : HasClients reqwest cfg
    pub validated : Jwt.new jwt read cfg.jwt ≡ ok validator
    pub same : first_state validator clients.proxying ≡ s

  pub start_up-IsStarted :
      (s : AppState K S L M A)
      → start_up jwt read redis governor connect moka reqwest now parsed route_env ≡ ok s
      → IsStarted s
  unfolding start_up
  start_up-IsStarted s h =
      let (v, made, h₁) =
        ok_of_bind (map_err (λ e. exit_code 1) (Jwt.new jwt read cfg.jwt)) _ s h in
      let (checking, checks, h₂) =
        ok_of_bind (map_err (λ e. panicked) (reqwest.build Health.client_settings)) _ s h₁ in
      let (routing, routes, h₃) =
        ok_of_bind (map_err (λ e. panicked) (reqwest.build (Router.client_settings cfg.upstream))) _
          s h₂ in
      let (proxying, proxies, last) =
        ok_of_bind (map_err (λ e. panicked) (reqwest.build Proxy.settings)) _ s h₃ in
      record {
        validator = v;
        clients = record {
          checking = checking;
          routing = routing;
          proxying = proxying;
          checks = ok_of_map_err _ _ checking checks;
          routes = ok_of_map_err _ _ routing routes;
          proxies = ok_of_map_err _ _ proxying proxies;
        };
        validated = ok_of_map_err _ _ v made;
        same = ok_inj last;
      }

  module _ (laws : JsonwebtokenLaws jwt) where
    abbrev Starts : Type 0
    Starts =
        (s : AppState K S L M A) × (start_up jwt read redis governor connect moka reqwest now parsed
            route_env
          ≡ ok s)
