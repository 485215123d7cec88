-- ===== src/Gateway/Tls/Agreement.antt =====
-- The two loaders of TLS settings, gateway/src/tls.rs and rust-gateway/src/tls.rs, on one pair of
-- files.
use app_gate.Base.{String, ◌≡◌, refl, some, List, ◌∷◌}
use app_gate.Base.Http.{Bytes, bytes_of}
use app_gate.Base.Result.{ok}
use app_gate.Base.Tls.{Rustls}
use app_gate.Gateway.Tls
use app_gate.RustGateway.Tls as RustTls

-- Text files, as both ways of reading show them.
pub record IsText {C : Type 0} (tls : Rustls C) (path contents : String) : Type 0 where
  pub opened : tls.open_file path ≡ ok (bytes_of contents)
  pub read : tls.read_to_string path ≡ ok contents

module _ {C : Type 0} (tls : Rustls C) (cert_path key_path cert_pem key_pem : String)
    (certs_text : IsText tls cert_path cert_pem) (key_text : IsText tls key_path key_pem) where
  -- On files of text, the first PKCS#8 key of which is the first key of any form, both loaders
  -- give the same, an error of the certificates included.
  pub load_tls_config-agrees :
      (key : Bytes) (keys : List Bytes)
      → tls.pkcs8_private_keys (bytes_of key_pem) ≡ ok (key ∷ keys)
      → tls.private_key (bytes_of key_pem) ≡ ok (some key)
      → Tls.load_tls_config tls cert_path key_path ≡ RustTls.load_tls_config tls cert_path key_path
  unfolding Tls.load_tls_config RustTls.load_tls_config
  load_tls_config-agrees key keys pkcs8 any_form =
      simp (certs_text.opened, certs_text.read, key_text.opened, key_text.read, pkcs8, any_form)
        refl
