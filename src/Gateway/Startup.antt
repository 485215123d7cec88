-- ===== src/Gateway/Startup.antt =====
-- gateway/src/main.rs and gateway/src/config.rs: the arguments with their defaults, what the server
-- and the settings take of them, and how the process ends. Parsing and printing a socket address
-- is third-party code and a parameter.
pub mod Endings
mod Tests
use mathlib.Core.Option
use app_gate.Base.{ℕ, String, Option, none, some, List, [], ◌∷◌, ◌+++◌}
use app_gate.Base.Result.{Result, ok, err}
use app_gate.Base.Tls.{Rustls}
use app_gate.Gateway.Accept.{ServerConfig, Listening, run_server}

pub record Args : Type 0 where
  pub listen_addr : String
  pub listen_port : ℕ
  pub control_plane_url : String
  pub tls_cert_path : String
  pub tls_key_path : String
  pub jwt_key_path : String
  pub jwt_issuer : String
  pub jwt_audience : String
  pub otlp_endpoint : String

-- The values of the arguments that are not given.
abbrev pub default_args : Args
default_args = record {
  listen_addr = "0.0.0.0";
  listen_port = 8443;
  control_plane_url = "http://appgate-control-plane:8080";
  tls_cert_path = "/etc/appgate/tls/cert.pem";
  tls_key_path = "/etc/appgate/tls/key.pem";
  jwt_key_path = "/etc/appgate/jwt/verify.pem";
  jwt_issuer = "https://appgate.example.com";
  jwt_audience = "appgate-gateway";
  otlp_endpoint = "http://otel-collector:4317";
}

unfoldable pub server_config : Args → ServerConfig
server_config args = record {
  listen_addr = args.listen_addr;
  listen_port = args.listen_port;
  control_plane_url = args.control_plane_url;
  tls_cert_path = args.tls_cert_path;
  tls_key_path = args.tls_key_path;
  jwt_key_path = args.jwt_key_path;
  jwt_issuer = args.jwt_issuer;
  jwt_audience = args.jwt_audience;
  otlp_endpoint = args.otlp_endpoint;
}

-- gateway/src/config.rs, which no other file of the crate uses.
pub record Config : Type 0 where
  pub listen_addr : String
  pub listen_port : ℕ
  pub control_plane_url : String
  pub jwt_key_path : String
  pub jwt_issuer : String
  pub jwt_audience : String
  pub allowed_algorithms : List String
  pub clock_skew_seconds : ℕ

unfoldable pub load : Args → Config
load args = record {
  listen_addr = args.listen_addr;
  listen_port = args.listen_port;
  control_plane_url = args.control_plane_url;
  jwt_key_path = args.jwt_key_path;
  jwt_issuer = args.jwt_issuer;
  jwt_audience = args.jwt_audience;
  allowed_algorithms = "RS256" ∷ "ES256" ∷ [];
  clock_skew_seconds = 30;
}

-- What ends the wait of `main`: a signal, or the server with its result, or the error of
-- a task that panicked.
pub data Ending : Type 0 where
  sigint sigterm : Ending
  server_stopped : Result (Unit {0}) String → Ending
  join_error : String → Ending

-- The three arms of `select!`, with what they log.
abbrev pub logged : Ending → String
logged sigint = "SIGINT received, shutting down"
logged sigterm = "SIGTERM received, shutting down"
logged (server_stopped (ok done)) = "Server stopped cleanly"
logged (server_stopped (err e)) = "Server error: " +++ e
logged (join_error e) = "Server task join error: " +++ e

module _ {C : Type 0} (tls : Rustls C) (bind : String → Result (Unit {0}) String)
    (socket_addr : String → ℕ → Option String) where
  -- What the server ends with before its loop, which does not end.
  abbrev pub failure : Result (Listening C) String → Option Ending
  failure (ok listening) = none
  failure (err e) = some (server_stopped (err e))

  -- The task of the server on the arguments: nothing if the address does not parse.
  unfoldable pub serve : Args → Option (Result (Listening C) String)
  serve args =
      Option.map (λ addr. run_server tls bind addr (server_config args))
        (socket_addr args.listen_addr args.listen_port)

  -- The result of `main`, at an ending that a signal would bring if the server does not stop:
  -- nothing if it panics at the address.
  abbrev pub after_wait : Ending → Option Ending → Result (Unit {0}) String × String
  after_wait signal none = (ok tt, logged signal)
  after_wait signal (some stopped) = (ok tt, logged stopped)

  unfoldable pub main : Args → Ending → Option (Result (Unit {0}) String × String)
  main args signal = Option.map (λ started. after_wait signal (failure started)) (serve args)
