-- ===== src/Gateway/Startup/Tests.antt =====
-- The default arguments, on a machine without the files of the TLS settings.
use app_gate.Base.{ℕ, String, ◌≡◌, refl, Option, none, some, []}
use app_gate.Base.Result.{Result, ok, err}
use app_gate.Base.Tls.{Rustls}
use app_gate.Gateway.Startup.{default_args, load}
use app_gate.Gateway.Tls.{load_tls_config}

abbrev no_files : Rustls ℕ
no_files = record {
  open_file = λ path. err "not found";
  read_to_string = λ path. err "not found";
  certs = λ b. ok [];
  pkcs8_private_keys = λ b. ok [];
  private_key = λ b. ok none;
  with_single_cert = λ certs key. ok 0;
}

abbrev bind : String → Result (Unit {0}) String
bind addr = ok tt

abbrev socket_addr : String → ℕ → Option String
socket_addr addr port = some "0.0.0.0:8443"

skew : (load default_args).clock_skew_seconds ≡ 30
unfolding load
skew = refl

unloaded :
    load_tls_config no_files default_args.tls_cert_path default_args.tls_key_path ≡ err "not found"
unfolding load_tls_config
unloaded = refl
