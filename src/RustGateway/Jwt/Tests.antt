-- ===== src/RustGateway/Jwt/Tests.antt =====
-- A validator from a key file, at a token that it accepts and with a key of the wrong kind.
use app_gate.Base.{ℕ, String, ◌≡◌, refl, true, some, [], ◌∷◌, contains, any}
use app_gate.Base.Assoc.{lookup}
use app_gate.Base.Http.{Bytes}
use app_gate.Base.Json.{required}
use app_gate.Base.Jwt.{Family, ed_dsa, Jsonwebtoken}
use app_gate.Base.Jwt.Sample.{sample, sample-JsonwebtokenLaws, Algorithm-discrete, Family-discrete}
use app_gate.Base.Result.{Result, ok}
use app_gate.RustGateway.Config.{JwtConfig, default_jwt}
use app_gate.RustGateway.Jwt.{
  Claims, JwtValidator, restricted, claims_of, decoding_key_of, from_pem, new, validate,
}
use app_gate.RustGateway.Jwt.Soundness.{IsTrusted, validate-IsTrusted}

abbrev jwt : Jsonwebtoken Family
jwt = sample "appgate" "appgate-gateway" 1000

abbrev with_key : JwtConfig
with_key = record default_jwt { enabled = true; key_path = some "/k" }

abbrev read : ℕ → String → Result Bytes String
read b path = ok (b ∷ [])

abbrev validator : JwtValidator Family
validator = record {
  decoding_key = Family.ed;
  validation = restricted "appgate" "appgate-gateway" (jwt.validation_new ed_dsa);
}

abbrev claims : Claims
claims = record { sub = "user-1"; iss = "appgate"; aud = "appgate-gateway"; exp = 1000; iat = 0 }

built : new jwt (read 49) with_key ≡ ok validator
unfolding new from_pem decoding_key_of sample
built = refl

passed : validate jwt 1060 validator "ed" ≡ ok claims
unfolding validate claims_of sample required lookup contains any Algorithm-discrete Family-discrete
passed = refl

validate-IsTrusted_example :
    IsTrusted
      (sample-JsonwebtokenLaws "appgate" "appgate-gateway" 1000)
      with_key
      1060
      Family.ed
      "ed"
      claims
validate-IsTrusted_example =
    validate-IsTrusted jwt (sample-JsonwebtokenLaws "appgate" "appgate-gateway" 1000) (read 49)
      with_key validator built 1060 "ed" claims passed
