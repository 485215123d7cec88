-- ===== src/Gateway/Jwt/Soundness.antt =====
-- What a token that passes gateway/src/jwt.rs is known to be, and what passes without a key.
use app_gate.Base.{
  ℕ, ◌≤◌, String, ◌≡◌, ◌≢◌, refl, sym, ap, ◌∙◌, false, not, ◌&&◌, none, some, [], ◌∷◌, ◌==◌, Any,
}
use app_gate.Base.Assoc.{lookup}
use app_gate.Base.Json.{Object, Value, text, number}
use app_gate.Base.Jwt.{
  Family, Algorithm, rs256, family, Validation, Jsonwebtoken, JsonwebtokenLaws, audiences,
}
use app_gate.Base.Result.{Result, ok, err, ok_of_bind}
use app_gate.Gateway.Jwt.{
  Claims, ValidatedToken, JwtValidator, Files, restricted, validated, static_key_of, new,
  key_or_bail, validate,
}
use app_gate.Gateway.Jwt.Reading.{Reads}

-- The settings that a token is decoded with once its algorithm is known.
abbrev pub settings_for : {K : Type 0} → JwtValidator K → Algorithm → Validation
settings_for v algorithm = record v.validation { algorithms = algorithm ∷ [] }

-- A token that was accepted, with the key, the decoded claims and what they read as.
pub record IsAuthentic {K : Type 0} {jwt : Jsonwebtoken K} (laws : JsonwebtokenLaws jwt)
    (issuer audience : String) (now : ℕ) (v : JwtValidator K) (token : String) (t : ValidatedToken)
    : Type 0 where
  pub key : K
  pub algorithm : Algorithm
  pub object : Object
  pub claims : Claims
  pub held : v.static_key ≡ some key
  pub header : jwt.decode_header token ≡ ok algorithm
  pub rsa_algorithm : family algorithm ≡ Family.rsa
  pub signed : laws.IsSigned token key algorithm
  pub decoded : jwt.decode now token key (settings_for v algorithm) ≡ ok object
  pub read : Reads object claims
  pub issued : lookup "iss" object ≡ some (text issuer)
  pub addressed :
      (value : Value) × (lookup "aud" object ≡ some value)
      × Any (λ a. a ≡ audience) (audiences value)
  pub named : lookup "sub" object ≡ some (text t.identity_id)
  pub expires : lookup "exp" object ≡ some (number t.expiry)
  pub fresh : now ≤ t.expiry
  pub shown : t ≡ validated claims

err-ne-ok : {A : Type 0} {e : String} {a : A} → ◌≢◌ {A = Result A String} (err e) (ok a)
err-ne-ok h = cc

module _ {K : Type 0} (jwt : Jsonwebtoken K) (laws : JsonwebtokenLaws jwt) (files : Files)
    (key_path issuer audience : String) where
  record IsBuilt (v : JwtValidator K) : Type 0 where
    loaded : static_key_of jwt files key_path ≡ ok v.static_key
    settings : v.validation ≡ restricted issuer audience (jwt.validation_new rs256)

  static_key_of-absent :
      (not (key_path == "") && files.exists key_path) ≡ false
      → static_key_of jwt files key_path ≡ ok none
  unfolding static_key_of
  static_key_of-absent h = simp (h) refl

  validate-keyless :
      (v : JwtValidator K) (now : ℕ) (token : String) (t : ValidatedToken)
      → v.static_key ≡ none
      → validate jwt now v token ≢ ok t
  unfolding validate
  validate-keyless v now token t h passed =
      let (algorithm, header, h₁) = ok_of_bind (jwt.decode_header token) _ t passed in
      let (key, held, h₂) = ok_of_bind (key_or_bail jwt v.static_key) _ t h₁ in
      let bailed : err "No key available" ≡ ok key = ap (key_or_bail jwt) (sym h) ∙ held in
      err-ne-ok bailed

  -- Without a key path, or without a file there, a validator is built all the same, and no token
  -- passes it.
  pub new-keyless_refuses :
      (now : ℕ) (token : String) (t : ValidatedToken)
      → (not (key_path == "") && files.exists key_path) ≡ false
      → (v : JwtValidator K) × (new jwt files key_path issuer audience ≡ ok v)
        × (validate jwt now v token ≢ ok t)
  unfolding new
  new-keyless_refuses now token t h =
      let v : JwtValidator K = record {
        static_key = none;
        validation = restricted issuer audience (jwt.validation_new rs256);
      } in
      (v, simp (static_key_of-absent h) refl, validate-keyless v now token t refl)
