-- ===== src/RustGateway/Startup/Tests.antt =====
-- A start with a key file, and two runs of the process.
use app_gate.Base.{ℕ, String, ◌+◌, ◌≡◌, ◌≤◌, refl, true, none, some, [], ◌∷◌, arith}
use app_gate.Base.{if◌then◌else◌}
use app_gate.RustGateway.Startup.{initial}
use app_gate.Base.Governor.{countdown}
use app_gate.Base.Decimal.{to_string}
use app_gate.RustGateway.Accept.Listening.{listen}
use app_gate.Base.Reqwest.{Reqwest}
use app_gate.Base.Http.{Bytes, bytes_of, Request, Send, is_visible}
use app_gate.Base.Http.Strict.{strict, strict-HttpLaws}
use app_gate.Base.Jwt.{Family, ed_dsa, Jsonwebtoken}
use app_gate.Base.Jwt.Sample.{sample}
use app_gate.Base.Moka.Sample
use app_gate.Base.Result.{Result, ok, err}
use app_gate.RustGateway.Cache.{CachedResponse}
use app_gate.RustGateway.Config.{
  GatewayConfig, default_gateway, default_jwt, default_upstream, from_env,
}
use app_gate.RustGateway.Jwt
use app_gate.RustGateway.Jwt.{JwtValidator, restricted, from_pem, decoding_key_of}
use app_gate.RustGateway.RateLimit.{Redis}
use app_gate.RustGateway.Server.{handle_proxy, proxy_error_response}
use app_gate.RustGateway.Server.Upstream.{Fits, outgoing, relayed}
use app_gate.RustGateway.Startup.{
  AppState, start_up, started, server_ended, signalled, clock, step, run, waiting, exited,
}
use app_gate.RustGateway.Startup.Serving.{default_url, start_up-serves}
use app_gate.RustGateway.Startup.Unbound.{after_start, unbound-waits}
use app_gate.RustGateway.Startup.Signals.{HasExited, run-HasExited}

abbrev jwt : Jsonwebtoken Family
jwt = sample "appgate" "appgate-gateway" 1000

abbrev no_redis : Redis ℕ
no_redis = record {
  zremrangebyscore = λ key min max s. err "none";
  zcard = λ key s. err "none";
  zadd = λ key score member s. err "none";
  expire = λ key secs s. err "none";
}

abbrev read : String → Result Bytes String
read path = ok (49 ∷ [])

abbrev with_key : Result GatewayConfig String
with_key = ok (record default_gateway {
  jwt = record default_jwt { key_path = some "/k" };
  upstream = record default_upstream { default_url = "http://up" };
})

-- A transport that answers with the address it was given.
abbrev send : Send
send req = ok (record { status = 200; headers = []; body = ok (bytes_of req.url) })

abbrev client : Reqwest
client = record { build = λ settings. ok send }

-- An address that reads, on a socket that is taken.
abbrev taken : String → Result (Unit {0}) String
taken addr = err "Address already in use"

refused :
    listen ok taken default_gateway ≡ err "Failed to bind to 0.0.0.0:8080: Address already in use"
unfolding listen to_string
refused = refl

unbound-waits_example :
    ((after_start ok taken default_gateway (clock 100000 ∷ [])).phase ≡ waiting)
    × ((step (signalled 7) (after_start ok taken default_gateway (clock 100000 ∷ []))).phase
        ≡ exited true)
unbound-waits_example =
    unbound-waits ok taken default_gateway "Failed to bind to 0.0.0.0:8080: Address already in use"
      (clock 100000 ∷ []) 7 refused (tt, tt)

in_time : (run (signalled 5 ∷ server_ended (ok tt) ∷ clock 40000 ∷ []) started).phase ≡ exited true
unfolding run step
in_time = refl

enough : 5 + 30000 ≤ 30005
enough = omega arith

run-HasExited_example :
    HasExited (run (clock 1 ∷ signalled 5 ∷ signalled 9 ∷ clock 30005 ∷ []) started)
run-HasExited_example = run-HasExited (clock 1 ∷ []) (signalled 9 ∷ []) 5 30005 (tt, tt) enough

abbrev validator : JwtValidator Family
validator = record {
  decoding_key = Family.ed;
  validation = restricted "appgate" "appgate-gateway" (jwt.validation_new ed_dsa);
}

abbrev state : AppState Family ℕ ℕ (Sample.Store CachedResponse) String
state =
    initial jwt read no_redis countdown (λ url. err "none") Sample.sample client 0
      (from_env with_key) none validator send

started_with_key :
    start_up jwt read no_redis countdown (λ url. err "none") Sample.sample client 0 with_key none
    ≡ ok state
unfolding start_up from_env Jwt.new from_pem decoding_key_of sample
started_with_key = refl

abbrev post : Request
post = record {
  method = "POST";
  path = "/v1/proxy";
  query = none;
  headers = [];
  body = ok (1 ∷ []);
}

visible : is_visible "id" ≡ true
visible = unfold is_visible in refl

post-Fits : Fits post.body
post-Fits = omega arith

start_up-serves_example : handle_proxy strict state.proxy_client state.router post "id" ≡ (
    if strict.uri_ok (default_url with_key)
    then some
        (relayed strict "id" (state.proxy_client (outgoing "POST" (default_url with_key) "id")))
    else proxy_error_response strict 500 "internal_error" "Failed to build upstream request" "id")
start_up-serves_example =
    start_up-serves jwt read no_redis countdown (λ url. err "none") Sample.sample client 0 with_key
      strict strict-HttpLaws state post "id" started_with_key visible refl post-Fits

-- The default upstream of this process is a URI, so the first branch is taken.
upstream_ok : strict.uri_ok (default_url with_key) ≡ true
unfolding from_env
upstream_ok = refl
