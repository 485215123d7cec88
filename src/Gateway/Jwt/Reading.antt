-- ===== src/Gateway/Jwt/Reading.antt =====
-- How the claims of gateway/src/jwt.rs are read from the object of a token.
use app_gate.Base.{ℕ, String, ◌≡◌, ap, ◌∙◌, some, List}
use app_gate.Base.Assoc.{lookup}
use app_gate.Base.Json.{
  Value, text, number, Object, read_text, read_texts, read_number, required, optional,
  required-lookup, required-text, required-number,
}
use app_gate.Base.Result.{ok, ok_of_bind, ok_inj}
use app_gate.Gateway.Jwt.{Claims, deserialize_audience, optional_claims, claims_of}

-- The claims that were read are those of the object.
pub record Reads (object : Object) (claims : Claims) : Type 0 where
  pub sub : lookup "sub" object ≡ some (text claims.sub)
  pub iss : lookup "iss" object ≡ some (text claims.iss)
  pub aud : (v : Value) × (lookup "aud" object ≡ some v) × (deserialize_audience v ≡ ok claims.aud)
  pub exp : lookup "exp" object ≡ some (number claims.exp)

-- The claims that may be missing leave the others as they are.
record IsKept (s i : String) (a : List String) (e : ℕ) (claims : Claims) : Type 0 where
  sub : s ≡ claims.sub
  iss : i ≡ claims.iss
  aud : a ≡ claims.aud
  exp : e ≡ claims.exp

optional_claims-IsKept :
    (sub iss : String) (aud : List String) (exp iat : ℕ) (object : Object) (claims : Claims)
    → optional_claims sub iss aud exp iat object ≡ ok claims
    → IsKept sub iss aud exp claims
unfolding optional_claims
optional_claims-IsKept sub iss aud exp iat object claims h =
    let (nbf, _, h₁) = ok_of_bind (optional read_number "nbf" object) _ claims h in
    let (jti, _, h₂) = ok_of_bind (optional read_text "jti" object) _ claims h₁ in
    let (roles, _, h₃) = ok_of_bind (optional read_texts "roles" object) _ claims h₂ in
    let (scope, _, h₄) = ok_of_bind (optional read_text "scope" object) _ claims h₃ in
    let (tenant, _, last) = ok_of_bind (optional read_text "tenant_id" object) _ claims h₄ in
    let same = ok_inj last in
    record {
      sub = ap (λ c. c.sub) same;
      iss = ap (λ c. c.iss) same;
      aud = ap (λ c. c.aud) same;
      exp = ap (λ c. c.exp) same;
    }

pub claims_of-Reads :
    (object : Object) (claims : Claims) → claims_of object ≡ ok claims → Reads object claims
unfolding claims_of
claims_of-Reads object claims h =
    let (sub, sub_read, h₁) = ok_of_bind (required read_text "sub" object) _ claims h in
    let (iss, iss_read, h₂) = ok_of_bind (required read_text "iss" object) _ claims h₁ in
    let (aud, aud_read, h₃) = ok_of_bind (required deserialize_audience "aud" object) _ claims h₂ in
    let (exp, exp_read, h₄) = ok_of_bind (required read_number "exp" object) _ claims h₃ in
    let (iat, _, h₅) = ok_of_bind (required read_number "iat" object) _ claims h₄ in
    let kept = optional_claims-IsKept sub iss aud exp iat object claims h₅ in
    let (v, found, read) = required-lookup deserialize_audience "aud" object aud aud_read in
    record {
      sub = required-text "sub" object sub sub_read ∙ ap (λ s. some (text s)) kept.sub;
      iss = required-text "iss" object iss iss_read ∙ ap (λ s. some (text s)) kept.iss;
      aud = (v, found, read ∙ ap ok kept.aud);
      exp = required-number "exp" object exp exp_read ∙ ap (λ n. some (number n)) kept.exp;
    }
