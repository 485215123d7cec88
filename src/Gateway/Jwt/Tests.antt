-- ===== src/Gateway/Jwt/Tests.antt =====
-- A validator from a key file, at a token that it accepts, and one without a key file.
use app_gate.Base.{◌≡◌, refl, not, ◌&&◌, ◌==◌, true, false, none, some, [], contains, any}
use app_gate.Base.Jwt.{Family, rs256, Jsonwebtoken}
use app_gate.Base.Jwt.Sample.{sample, Algorithm-discrete, Family-discrete}
use app_gate.Base.Result.{ok, err}
use app_gate.Gateway.Jwt.{ValidatedToken, JwtValidator, Files, restricted, validate}

abbrev jwt : Jsonwebtoken Family
jwt = sample "issuer" "api" 1000

-- Every file exists, with the same contents.
abbrev files : Files
files = record { exists = λ path. true; read_to_string = λ path. ok "2" }

abbrev validator : JwtValidator Family
validator = record {
  static_key = some Family.rsa;
  validation = restricted "issuer" "api" (jwt.validation_new rs256);
}

abbrev token : ValidatedToken
token = record {
  identity_id = "user-1";
  roles = [];
  scope = "";
  token_id = "";
  tenant_id = none;
  expiry = 1000;
}

expired : validate jwt 1001 validator "rs" ≡ err "refused"
unfolding validate sample contains any Algorithm-discrete Family-discrete
expired = refl

no_path : (not ("" == "") && files.exists "") ≡ false
no_path = refl
