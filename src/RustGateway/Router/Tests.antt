-- ===== src/RustGateway/Router/Tests.antt =====
-- A table from the environment, and the theorems at it.
use app_gate.Base.{◌≡◌, refl, some, [], ◌∷◌, arith, split, splitn}
use app_gate.RustGateway.Config.{default_gateway}
use app_gate.RustGateway.Router.{Route, Router, new, parse_routes}
use app_gate.RustGateway.Router.Table.{show_routes, IsPlain, parse_routes-show}

abbrev chat : Route
chat = record { path_prefix = "/v1/chat"; upstream = "https://a?k=v"; provider = "anthropic" }

abbrev other : Route
other = record { path_prefix = "/v1"; upstream = "https://b"; provider = "openai" }

-- The pair with two parts is skipped.
parsed :
    parse_routes (some "/v1/chat=anthropic=https://a?k=v,half=pair,/v1=openai=https://b")
    ≡ chat ∷ other ∷ []
unfolding parse_routes split splitn
parsed = refl

chat-IsPlain : IsPlain chat
chat-IsPlain = omega arith

other-IsPlain : IsPlain other
other-IsPlain = omega arith

parse_routes-show_example : parse_routes (some (show_routes chat (other ∷ []))) ≡ chat ∷ other ∷ []
parse_routes-show_example = parse_routes-show chat (other ∷ []) (chat-IsPlain, (other-IsPlain, tt))

abbrev table : Router
table = new default_gateway (some "/v1/chat=anthropic=https://a?k=v")
