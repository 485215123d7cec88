-- ===== src/RustGateway/Tls.antt =====
-- rust-gateway/src/tls.rs. The files and the crates are parameters.
use app_gate.Base.{String, Option, none, some}
use app_gate.Base.Http.{Bytes, bytes_of}
use app_gate.Base.Result.{Result, ok, err, ◌>>=◌}
use app_gate.Base.Tls.{Rustls}

-- `keys.into_iter().next().ok_or(…)` of the option that was collected.
abbrev key_or_error : Option Bytes → Result Bytes String
key_or_error none = err "No private key found"
key_or_error (some key) = ok key

unfoldable pub load_tls_config : {C : Type 0} → Rustls C → String → String → Result C String
load_tls_config tls cert_path key_path = do
  cert_pem ← tls.read_to_string cert_path
  key_pem ← tls.read_to_string key_path
  certs ← tls.certs (bytes_of cert_pem)
  found ← tls.private_key (bytes_of key_pem)
  key ← key_or_error found
  tls.with_single_cert certs key
