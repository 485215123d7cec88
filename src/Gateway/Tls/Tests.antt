-- ===== src/Gateway/Tls/Tests.antt =====
-- A certificate file of one line and a key file with one key.
use app_gate.Base.{String, ◌≡◌, refl, some, List, [], ◌∷◌, ◌==◌, if◌then◌else◌}
use app_gate.Base.Http.{Bytes, bytes_of}
use app_gate.Base.Result.{ok}
use app_gate.Base.Tls.{Rustls}
use app_gate.Gateway.Tls
use app_gate.Gateway.Tls.Agreement.{IsText}

abbrev contents : String → String
contents path = if path == "/cert" then "C" else "K"

-- An acceptor is its certificates and its key; every file is one certificate or one key.
abbrev tls : Rustls (List Bytes × Bytes)
tls = record {
  open_file = λ path. ok (bytes_of (contents path));
  read_to_string = λ path. ok (contents path);
  certs = λ b. ok (b ∷ []);
  pkcs8_private_keys = λ b. ok (b ∷ []);
  private_key = λ b. ok (some b);
  with_single_cert = λ certs key. ok (certs, key);
}

loaded : Tls.load_tls_config tls "/cert" "/key" ≡ ok ((67 ∷ []) ∷ [], 75 ∷ [])
unfolding Tls.load_tls_config bytes_of
loaded = refl

cert-IsText : IsText tls "/cert" "C"
cert-IsText = record { opened = refl; read = refl }

key-IsText : IsText tls "/key" "K"
key-IsText = record { opened = refl; read = refl }
