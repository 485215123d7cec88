-- ===== src/RustGateway/Jwt.antt =====
-- rust-gateway/src/jwt.rs. The crate `jsonwebtoken` and the file system are parameters; the time is
-- an argument. Of `TokenData` only the claims are kept.
pub mod Soundness
mod Tests
use app_gate.Base.{ℕ, String, Bool, true, false, Option, none, some, List, [], ◌∷◌, ◌+++◌}
use app_gate.Base.Http.{Bytes}
use app_gate.Base.Json.{Object, read_text, read_number, required}
use app_gate.Base.Jwt.{Algorithm, ed_dsa, Validation, Jsonwebtoken}
use app_gate.Base.Result.{Result, ok, err, map_err, or_else, unwrap_or, ◌>>=◌}
use app_gate.RustGateway.Config.{JwtConfig}

pub record Claims : Type 0 where
  pub sub : String
  pub iss : String
  pub aud : String
  pub exp : ℕ
  pub iat : ℕ

-- The derived `Deserialize`.
unfoldable pub claims_of : Object → Result Claims String
claims_of object = do
  sub ← required read_text "sub" object
  iss ← required read_text "iss" object
  aud ← required read_text "aud" object
  exp ← required read_number "exp" object
  iat ← required read_number "iat" object
  ok (record { sub = sub; iss = iss; aud = aud; exp = exp; iat = iat })

pub record JwtValidator (K : Type 0) : Type 0 where
  pub decoding_key : K
  pub validation : Validation

-- `validation` in `from_pem`, from what the crate makes of the algorithm.
abbrev pub restricted : String → String → Validation → Validation
restricted issuer audience v = record v {
  iss = some (issuer ∷ []);
  aud = some (audience ∷ []);
  validate_exp = true;
  validate_nbf = false;
}

module _ {K : Type 0} (jwt : Jsonwebtoken K) where
  -- The three forms that a PEM file is tried in.
  unfoldable pub decoding_key_of : Bytes → Result K String
  decoding_key_of pem =
      map_err (λ e. "Unsupported PEM format: " +++ e)
        (or_else (λ _. jwt.from_ec_pem pem)
          (or_else (λ _. jwt.from_rsa_pem pem) (jwt.from_ed_pem pem)))

  unfoldable pub from_pem : Bytes → String → String → Result (JwtValidator K) String
  from_pem pem issuer audience = do
    decoding_key ← decoding_key_of pem
    ok (record {
      decoding_key = decoding_key;
      validation = restricted issuer audience (jwt.validation_new ed_dsa);
    })

  -- Without a key file, with and without the address of a key set.
  abbrev no_key_file : Option String → Result (JwtValidator K) String
  no_key_file none =
      err "no JWT key source configured (set APPGATE_JWT_KEY_PATH or APPGATE_JWT_JWKS_URL)"
  no_key_file (some jwks_url) = err (
      "JWKS loading from " +++ jwks_url
      +++ " is not supported in this build (auto-start disabled); configure APPGATE_JWT_KEY_PATH with the PEM public key")

  abbrev from_key_file :
      (String → Result Bytes String) → JwtConfig → Option String → Result (JwtValidator K) String
  from_key_file read config none = no_key_file config.jwks_url
  from_key_file read config (some key_path) = do
    pem ←
        map_err (λ e. "Failed to read JWT public key " +++ key_path +++ ": " +++ e) (read key_path)
    from_pem pem (unwrap_or "appgate" config.issuer) (unwrap_or "appgate-gateway" config.audience)

  -- `read` is `std::fs::read`.
  unfoldable pub new : (String → Result Bytes String) → JwtConfig → Result (JwtValidator K) String
  new read config = from_key_file read config config.key_path

  unfoldable pub validate : ℕ → JwtValidator K → String → Result Claims String
  validate now v token =
      map_err (λ e. "JWT validation failed: " +++ e)
        (jwt.decode now token v.decoding_key v.validation >>= claims_of)
