-- ===== src/Gateway/Startup/Endings.antt =====
-- What the process of gateway/src/main.rs ends with if its server cannot start.
use mathlib.Core.Option
use app_gate.Base.{ℕ, String, ◌≡◌, refl, ap, ◌∙◌, Option, some, ◌+++◌}
use app_gate.Base.Result.{Result, ok, err}
use app_gate.Base.Tls.{Rustls}
use app_gate.Gateway.Accept.{Listening, run_server}
use app_gate.Gateway.Startup.{Args, server_config, Ending, failure, after_wait, serve, main}
use app_gate.Gateway.Tls.{load_tls_config}

module _ {C : Type 0} (tls : Rustls C) (bind : String → Result (Unit {0}) String)
    (socket_addr : String → ℕ → Option String) (args : Args) (addr : String)
    (parsed : socket_addr args.listen_addr args.listen_port ≡ some addr) where
  run_server-unloaded :
      (e : String)
      → bind addr ≡ ok tt
      → load_tls_config tls args.tls_cert_path args.tls_key_path ≡ err e
      → run_server tls bind addr (server_config args) ≡ err ("Failed to load TLS config: " +++ e)
  unfolding run_server server_config
  run_server-unloaded e bound unloaded = simp (bound, unloaded) refl

  -- A server whose files do not load, on a socket that it could bind, stops with that error; the
  -- process logs it and ends with success.
  pub main-unloaded :
      (e : String) (signal : Ending)
      → bind addr ≡ ok tt
      → load_tls_config tls args.tls_cert_path args.tls_key_path ≡ err e
      → (serve tls bind socket_addr args ≡ some (err ("Failed to load TLS config: " +++ e)))
        × (main tls bind socket_addr args signal
            ≡ some (ok tt, "Server error: " +++ ("Failed to load TLS config: " +++ e)))
  unfolding serve main
  main-unloaded e signal bound unloaded =
      let start : String → Result (Listening C) String =
        λ a. run_server tls bind a (server_config args) in
      let ended = ap (Option.map start) parsed ∙ ap some (run_server-unloaded e bound unloaded) in
      (
        ended,
        ap
            (Option.map
              (λ r. after_wait tls bind socket_addr signal (failure tls bind socket_addr r)))
            ended,
      )
