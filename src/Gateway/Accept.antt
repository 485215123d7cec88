-- ===== src/Gateway/Accept.antt =====
-- gateway/src/server.rs: `run_server`, its accept loop and the connection counter. The socket, the
-- TLS files and hyper are parameters. A task that panics does not get to its decrement; with the
-- release profile of gateway/Cargo.toml a panic ends the process.
pub mod Timer
mod Tests
use app_gate.Base.{
  List, [], ◌∷◌, ℕ, zero, suc, ◌+◌, ◌-◌, String, Bool, true, false, Option, none, some, ◌+++◌,
  if◌then◌else◌,
}
use app_gate.Base.Hyper.{ConnectionBuilder, Hyper}
use app_gate.Base.Result.{Result, ok, err, map_err, ◌>>=◌, ◌>>◌}
use app_gate.Base.Tls.{Rustls}
use app_gate.Base.Words.{u64_mod}
use app_gate.Gateway.Tls.{load_tls_config}

pub record ServerConfig : Type 0 where
  pub listen_addr : String
  pub listen_port : ℕ
  pub control_plane_url : String
  pub tls_cert_path : String
  pub tls_key_path : String
  pub jwt_key_path : String
  pub jwt_issuer : String
  pub jwt_audience : String
  pub otlp_endpoint : String

abbrev pub connection_builder : ConnectionBuilder
connection_builder = record { keep_alive = true; header_read_timeout = some 10; has_timer = false }

pub data PanicStrategy : Type 0 where
  unwind abort : PanicStrategy

pub record Server : Type 0 where
  pub is_running : Bool
  pub active_connections : ℕ
  -- The tasks in the TLS handshake, and those that serve a connection.
  pub handshaking : ℕ
  pub serving : ℕ

abbrev pub start : Server
start = record { is_running = true; active_connections = 0; handshaking = 0; serving = 0 }

-- What the loop is entered with.
pub record Listening (C : Type 0) : Type 0 where
  pub tls_acceptor : C
  pub upstream_base : String
  pub server : Server

-- `run_server` up to its loop. `bind` is `TcpListener::bind`.
unfoldable pub run_server :
    {C : Type 0}
    → Rustls C
    → (String → Result (Unit {0}) String)
    → String
    → ServerConfig
    → Result (Listening C) String
run_server tls bind addr config =
    map_err (λ e. "Failed to bind to " +++ addr +++ ": " +++ e) (bind addr)
    >> (map_err (λ e. "Failed to load TLS config: " +++ e)
          (load_tls_config tls config.tls_cert_path config.tls_key_path)
        >>= λ acceptor. ok (record {
          tls_acceptor = acceptor;
          upstream_base = config.control_plane_url;
          server = start;
        }))

pub data Event : Type 0 where
  accepted accept_failed handshake_failed handshake_done finished : Event

-- `fetch_sub(1)`
abbrev pub fetch_sub : ℕ → ℕ
fetch_sub zero = u64_mod - 1
fetch_sub (suc n) = n

abbrev pub on_accepted : Server → Server
on_accepted s = record s {
  active_connections = s.active_connections + 1;
  handshaking = s.handshaking + 1;
}

abbrev pub on_handshake_failed : ℕ → Server → Server
on_handshake_failed zero s = s
on_handshake_failed (suc n) s = record s {
  active_connections = fetch_sub s.active_connections;
  handshaking = n;
}

-- A panic in a task whose handshake was its last deed.
abbrev pub on_panic : PanicStrategy → ℕ → Server → Server
on_panic unwind n s = record s { handshaking = n }
on_panic abort n s = record s { is_running = false; handshaking = n }

abbrev pub on_handshake_done : Hyper → PanicStrategy → ℕ → Server → Server
on_handshake_done hyper strategy zero s = s
on_handshake_done hyper strategy (suc n) s =
    if hyper.panics connection_builder
    then on_panic strategy n s
    else record s { handshaking = n; serving = s.serving + 1 }

abbrev pub on_finished : ℕ → Server → Server
on_finished zero s = s
on_finished (suc n) s = record s {
  active_connections = fetch_sub s.active_connections;
  serving = n;
}

abbrev pub on_event : Hyper → PanicStrategy → Event → Server → Server
on_event hyper strategy accepted s = on_accepted s
on_event hyper strategy accept_failed s = s
on_event hyper strategy handshake_failed s = on_handshake_failed s.handshaking s
on_event hyper strategy handshake_done s = on_handshake_done hyper strategy s.handshaking s
on_event hyper strategy finished s = on_finished s.serving s

-- An event of a process that has ended is none.
unfoldable pub step : Hyper → PanicStrategy → Event → Server → Server
step hyper strategy event s = if s.is_running then on_event hyper strategy event s else s

unfoldable pub run : Hyper → PanicStrategy → List Event → Server → Server
run hyper strategy [] s = s
run hyper strategy (e ∷ es) s = run hyper strategy es (step hyper strategy e s)

-- The helper of gateway/src/router.rs.
unfoldable pub active_connections : Server → ℕ
active_connections s = s.active_connections
