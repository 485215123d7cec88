-- ===== src/Gateway/Tls.antt =====
-- gateway/src/tls.rs. The files and the crates are parameters; installing the crypto provider is
-- left out.
pub mod Agreement
mod Tests
use app_gate.Base.{String, List, [], ◌∷◌}
use app_gate.Base.Http.{Bytes}
use app_gate.Base.Result.{Result, ok, err, ◌>>=◌}
use app_gate.Base.Tls.{Rustls}

-- `keys.into_iter().next().ok_or_else(…)`
abbrev first_key : List Bytes → Result Bytes String
first_key [] = err "No private key"
first_key (key ∷ keys) = ok key

unfoldable pub load_tls_config : {C : Type 0} → Rustls C → String → String → Result C String
load_tls_config tls cert_path key_path = do
  cert_file ← tls.open_file cert_path
  cert_chain ← tls.certs cert_file
  key_file ← tls.open_file key_path
  keys ← tls.pkcs8_private_keys key_file
  key ← first_key keys
  tls.with_single_cert cert_chain key
