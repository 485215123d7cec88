-- ===== src/Base/Reqwest.antt =====
-- The HTTP client of the crate `reqwest`, as a parameter: how a builder's settings become a client.
-- Durations are milliseconds.
pub mod Plain
use Prim.Native.Nat.{ℕ}
use Prim.Native.String.{String}
use mathlib.Core.Path.{◌≡◌}
use mathlib.Core.Bool.{Bool, true, false}
use mathlib.Core.Option.{Option, none, some}
use app_gate.Base.Http.{Send, UpstreamRequest}
use app_gate.Base.Result.{Result, ok, err}

-- What the methods of a `ClientBuilder` set; `none` is a method that was not called.
pub record ClientSettings : Type 0 where
  pub timeout : Option ℕ
  pub connect_timeout : Option ℕ
  pub pool_max_idle_per_host : Option ℕ
  pub pool_idle_timeout : Option ℕ
  pub http2_prior_knowledge : Bool

-- `build`, with the text of its error. A client sends requests.
pub record Reqwest : Type 0 where
  pub build : ClientSettings → Result Send String

-- The documented behaviour: a client with `http2_prior_knowledge` speaks nothing else, so it has no
-- answer from an address whose server does not take HTTP/2.
pub record ReqwestLaws (reqwest : Reqwest) (takes_http2 : String → Bool) : Type 0 where
  pub prior_knowledge :
      (settings : ClientSettings) (client : Send) (request : UpstreamRequest)
      → settings.http2_prior_knowledge ≡ true
      → reqwest.build settings ≡ ok client
      → takes_http2 request.url ≡ false
      → (e : String) × (client request ≡ err e)

-- `.expect("failed to build HTTP client")`: `none` is the panic.
abbrev pub expect : Result Send String → Option Send
expect (ok client) = some client
expect (err e) = none

-- A client that `expect` let through was built.
pub expect-built : (r : Result Send String) (client : Send) → expect r ≡ some client → r ≡ ok client
expect-built (ok c) client h = cc
expect-built (err e) client h = cc
