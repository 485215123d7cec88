-- ===== src/Gateway/Jwt.antt =====
-- gateway/src/jwt.rs. The crate `jsonwebtoken` and the file system are parameters; the time is an
-- argument. The visitor of the audience claim takes a text or a sequence of texts.
pub mod Reading
pub mod Soundness
mod Tests
use app_gate.Base.{
  ℕ, String, Bool, true, false, not, Option, none, some, List, [], ◌∷◌, ◌==◌, ◌&&◌, ◌+++◌,
  if◌then◌else◌,
}
use app_gate.Base.Http.{bytes_of}
use app_gate.Base.Json.{
  Value, null, other, number, text, texts, Reader, Object, read_text, read_texts, read_number,
  required, optional,
}
use app_gate.Base.Jwt.{Algorithm, rs256, Validation, Jsonwebtoken}
use app_gate.Base.Result.{Result, ok, err, map_err, unwrap_or, ◌>>=◌}

pub record Claims : Type 0 where
  pub sub : String
  pub iss : String
  pub aud : List String
  pub exp : ℕ
  pub iat : ℕ
  pub nbf : Option ℕ
  pub jti : Option String
  pub roles : Option (List String)
  pub scope : Option String
  pub tenant_id : Option String

pub record ValidatedToken : Type 0 where
  pub identity_id : String
  pub roles : List String
  pub scope : String
  pub token_id : String
  pub tenant_id : Option String
  pub expiry : ℕ

-- The two `visit_…` functions, and what serde answers to any other value.
abbrev pub deserialize_audience : Reader (List String)
deserialize_audience (text value) = ok (value ∷ [])
deserialize_audience (texts values) = ok values
deserialize_audience null = err "invalid type, expected string or array of strings"
deserialize_audience other = err "invalid type, expected string or array of strings"
deserialize_audience (number n) = err "invalid type, expected string or array of strings"

-- The derived `Deserialize`: the claims that may be missing, after those that may not.
unfoldable pub optional_claims :
    String → String → List String → ℕ → ℕ → Object → Result Claims String
optional_claims sub iss aud exp iat object = do
  nbf ← optional read_number "nbf" object
  jti ← optional read_text "jti" object
  roles ← optional read_texts "roles" object
  scope ← optional read_text "scope" object
  tenant_id ← optional read_text "tenant_id" object
  ok (record {
    sub = sub;
    iss = iss;
    aud = aud;
    exp = exp;
    iat = iat;
    nbf = nbf;
    jti = jti;
    roles = roles;
    scope = scope;
    tenant_id = tenant_id;
  })

-- The derived `Deserialize`.
unfoldable pub claims_of : Object → Result Claims String
claims_of object = do
  sub ← required read_text "sub" object
  iss ← required read_text "iss" object
  aud ← required deserialize_audience "aud" object
  exp ← required read_number "exp" object
  iat ← required read_number "iat" object
  optional_claims sub iss aud exp iat object

pub record JwtValidator (K : Type 0) : Type 0 where
  pub static_key : Option K
  pub validation : Validation

-- `std::path::Path::exists` and `std::fs::read_to_string`.
pub record Files : Type 0 where
  pub exists : String → Bool
  pub read_to_string : String → Result String String

-- `validation` in `new`, from what the crate makes of the algorithm.
abbrev pub restricted : String → String → Validation → Validation
restricted issuer audience v = record v {
  iss = some (issuer ∷ []);
  aud = some (audience ∷ []);
  leeway = 0;
}

-- What `validate` makes of the claims.
unfoldable pub validated : Claims → ValidatedToken
validated claims = record {
  identity_id = claims.sub;
  roles = unwrap_or [] claims.roles;
  scope = unwrap_or "" claims.scope;
  token_id = unwrap_or "" claims.jti;
  tenant_id = claims.tenant_id;
  expiry = claims.exp;
}

module _ {K : Type 0} (jwt : Jsonwebtoken K) where
  abbrev load_key : Files → String → Result (Option K) String
  load_key files key_path = do
    pem ← map_err (λ e. "Failed to read JWT key: " +++ key_path) (files.read_to_string key_path)
    key ← jwt.from_rsa_pem (bytes_of pem)
    ok (some key)

  unfoldable pub static_key_of : Files → String → Result (Option K) String
  static_key_of files key_path =
      if not (key_path == "") && files.exists key_path then load_key files key_path else ok none

  unfoldable pub new : Files → String → String → String → Result (JwtValidator K) String
  new files key_path issuer audience = do
    static_key ← static_key_of files key_path
    ok (record {
      static_key = static_key;
      validation = restricted issuer audience (jwt.validation_new rs256);
    })

  abbrev key_or_bail : Option K → Result K String
  key_or_bail none = err "No key available"
  key_or_bail (some k) = ok k

  -- The algorithms that are accepted are the one that the token itself names.
  unfoldable pub validate : ℕ → JwtValidator K → String → Result ValidatedToken String
  unfolding validated
  validate now v token = do
    alg ← jwt.decode_header token
    key ← key_or_bail v.static_key
    object ← jwt.decode now token key (record v.validation { algorithms = alg ∷ [] })
    claims ← claims_of object
    ok (validated claims)
