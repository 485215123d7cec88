-- ===== src/RustGateway/Router.antt =====
-- rust-gateway/src/router.rs: the table of routes and the choice of an upstream. The HTTP client
-- that a router also holds, and that nothing uses, stands as the settings it is built with.
pub mod Selection
pub mod Table
mod Tests
use text.Mathlib.Text.{starts_with}
use app_gate.Base.{
  ◌*◌, String, Bool, true, false, not, Option, none, some, List, [], ◌∷◌, ◌++◌, ◌==◌, ◌+++◌, split,
  splitn, if◌then◌else◌,
}
use app_gate.Base.Reqwest.{ClientSettings}
use app_gate.Base.Result.{Result, ok, err, unwrap_or}
use app_gate.RustGateway.Config.{GatewayConfig, UpstreamConfig}

pub record Route : Type 0 where
  pub path_prefix : String
  pub upstream : String
  pub provider : String

pub record Router : Type 0 where
  pub client : ClientSettings
  pub default_upstream : String
  pub routes : List Route

-- One pair of `APPGATE_ROUTES`: three parts make a route, fewer are skipped.
abbrev pub route_of_parts : List String → List Route
route_of_parts [] = []
route_of_parts (prefix ∷ []) = []
route_of_parts (prefix ∷ provider ∷ []) = []
route_of_parts (prefix ∷ provider ∷ upstream ∷ []) =
    record { path_prefix = prefix; upstream = upstream; provider = provider } ∷ []
route_of_parts (prefix ∷ provider ∷ upstream ∷ more ∷ rest) = []

unfoldable pub parse_pair : String → List Route
parse_pair pair = route_of_parts (splitn 3 b'=' pair)

unfoldable pub parse_pairs : List String → List Route
unfolding parse_pair
parse_pairs [] = []
parse_pairs (pair ∷ pairs) = parse_pair pair ++ parse_pairs pairs

unfoldable pub parse_routes : Option String → List Route
unfolding parse_pairs
parse_routes none = []
parse_routes (some route_env) = parse_pairs (split b',' route_env)

abbrev or_default_routes : String → List Route → List Route
or_default_routes default_url [] =
    record { path_prefix = "/v1/chat/completions"; upstream = default_url; provider = "openai" }
    ∷ []
or_default_routes default_url (r ∷ rs) = r ∷ rs

abbrev pub client_settings : UpstreamConfig → ClientSettings
client_settings upstream = record {
  timeout = some (unwrap_or 60000 upstream.read_timeout_ms);
  connect_timeout = some (unwrap_or 5000 upstream.connect_timeout_ms);
  pool_max_idle_per_host = some (unwrap_or 1000 upstream.max_connections);
  pool_idle_timeout = some (1000 * unwrap_or 30 upstream.keepalive_duration_secs);
  http2_prior_knowledge = true;
}

-- `Router::new`; the second argument is the value of `APPGATE_ROUTES`.
unfoldable pub new : GatewayConfig → Option String → Router
unfolding parse_routes
new config route_env = record {
  client = client_settings config.upstream;
  default_upstream = config.upstream.default_url;
  routes = or_default_routes config.upstream.default_url (parse_routes route_env);
}

-- The loop of `select`.
unfoldable pub select_from : List Route → String → String → Option String
select_from [] default_upstream path = some default_upstream
select_from (route ∷ routes) default_upstream path =
    if starts_with path route.path_prefix
    then some route.upstream
    else select_from routes default_upstream path

unfoldable pub select : Router → String → Option String
unfolding select_from
select r path = select_from r.routes r.default_upstream path

unfoldable pub provider_of_model : String → String
provider_of_model model =
    if starts_with model "gpt-"
    then "openai"
    else if starts_with model "claude-"
    then "anthropic"
    else if starts_with model "llama-"
    then "meta"
    else "default"

-- The loop of `get_provider_url`.
unfoldable pub find_provider : List Route → String → Option String
find_provider [] provider = none
find_provider (route ∷ routes) provider =
    if route.provider == provider then some route.upstream else find_provider routes provider

abbrev or_default_upstream : Router → String → Option String → Result String String
or_default_upstream r model (some upstream) = ok upstream
or_default_upstream r model none =
    if not (r.default_upstream == "")
    then ok r.default_upstream
    else err ("no upstream configured for model: " +++ model)

unfoldable pub get_provider_url : Router → String → Result String String
unfolding find_provider provider_of_model
get_provider_url r model =
    or_default_upstream r model (find_provider r.routes (provider_of_model model))
