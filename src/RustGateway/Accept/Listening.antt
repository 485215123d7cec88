-- ===== src/RustGateway/Accept/Listening.antt =====
-- rust-gateway/src/server.rs before its accept loop and in a connection: the socket that `run`
-- binds, and the settings of a connection. The parser of addresses and the socket are parameters.
use mathlib.Core.Path.{subst}
use app_gate.Base.{String, ◌≡◌, refl, ◌↔◌, ap, sym, true, false, some, ◌+++◌}
use app_gate.Base.Decimal.{to_string}
use app_gate.Base.Hyper.{ConnectionBuilder, Hyper, HyperLaws}
use app_gate.Base.Result.{Result, ok, err, map_err, ok_inj, ◌>>=◌}
use app_gate.RustGateway.Config.{GatewayConfig}

-- The builder of `handle_connection`.
abbrev pub connection_builder : ConnectionBuilder
connection_builder = record { keep_alive = true; header_read_timeout = some 10; has_timer = true }

-- A connection of this server is served.
pub connection_builder-served :
    (hyper : Hyper) → HyperLaws hyper → hyper.panics connection_builder ≡ false
connection_builder-served hyper laws = laws.timer_set connection_builder refl

module _ (parse : String → Result String String) (bind : String → Result (Unit {0}) String) where
  abbrev pub bind_text : GatewayConfig → String
  bind_text config = config.bind_addr +++ (":" +++ to_string config.port)

  -- The address that `run` listens at, or its error.
  unfoldable pub listen : GatewayConfig → Result String String
  listen config = do
    addr ← map_err (λ e. "Invalid bind address: " +++ e) (parse (bind_text config))
    bound ← map_err (λ e. "Failed to bind to " +++ (addr +++ (": " +++ e))) (bind addr)
    ok addr

  bound_ok :
      (r : Result (Unit {0}) String) (a addr : String)
      → ((map_err (λ e. "Failed to bind to " +++ (a +++ (": " +++ e))) r >>= λ b. ok a) ≡ ok addr)
        ↔ ((r ≡ ok tt) × (a ≡ addr))
  bound_ok (ok u) a addr = (λ h. (refl, ok_inj h), λ h. ap ok h.1)
  bound_ok (err e) a addr = (λ h. cc, λ h. cc (h.0))

  both_ok :
      (parsed : Result String String) (addr : String)
      → ((map_err (λ e. "Invalid bind address: " +++ e) parsed >>= λ a.
            map_err (λ e. "Failed to bind to " +++ (a +++ (": " +++ e))) (bind a) >>= λ b. ok a)
          ≡ ok addr)
        ↔ ((parsed ≡ ok addr) × (bind addr ≡ ok tt))
  both_ok (err e) addr = (λ h. cc, λ h. cc (h.0))
  both_ok (ok a) addr =
      let bound = bound_ok (bind a) a addr in
      (
        λ h. let (b, e) = bound.0 h in (ap ok e, subst (λ x. bind x ≡ ok tt) e b),
        λ h. bound.1 (subst (λ x. bind x ≡ ok tt) (sym (ok_inj h.0)) h.1, ok_inj h.0),
      )

  -- The server listens at an address exactly when its setting reads as that address and the socket
  -- can be bound.
  pub listen_iff :
      (config : GatewayConfig) (addr : String)
      → (listen config ≡ ok addr) ↔ ((parse (bind_text config) ≡ ok addr) × (bind addr ≡ ok tt))
  unfolding listen
  listen_iff config addr = both_ok (parse (bind_text config)) addr
