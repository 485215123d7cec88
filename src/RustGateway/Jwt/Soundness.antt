-- ===== src/RustGateway/Jwt/Soundness.antt =====
-- What a token that passes rust-gateway/src/jwt.rs is known to be, and which keys pass any.
use mathlib.Core.Path.{subst}
use app_gate.Base.{
  ℕ, ◌+◌, ◌≤◌, String, ◌≡◌, ◌≢◌, inl, inr, refl, sym, ap, ◌∙◌, Any-sole, Any-sole_of, true, Option,
  none, some, [], ◌∷◌, arith, Any,
}
use app_gate.Base.Assoc.{lookup}
use app_gate.Base.Http.{Bytes}
use app_gate.Base.Json.{
  text, number, Object, read_text, read_number, required, required-text, required-number,
}
use app_gate.Base.Jwt.{Family, ed_dsa, family, Jsonwebtoken, JsonwebtokenLaws, IsAccepted}
use app_gate.Base.Result.{Result, ok, err, map_err, unwrap_or, ok_of_bind, ok_of_map_err, ok_inj}
use app_gate.RustGateway.Config.{JwtConfig}
use app_gate.RustGateway.Jwt.{
  Claims, claims_of, JwtValidator, restricted, decoding_key_of, from_pem, no_key_file,
  from_key_file, new, validate,
}

-- The claims that were read are those of the object.
record Reads (object : Object) (claims : Claims) : Type 0 where
  iss : lookup "iss" object ≡ some (text claims.iss)
  aud : lookup "aud" object ≡ some (text claims.aud)
  exp : lookup "exp" object ≡ some (number claims.exp)

claims_of-Reads :
    (object : Object) (claims : Claims) → claims_of object ≡ ok claims → Reads object claims
unfolding claims_of
claims_of-Reads object claims h =
    let (sub, _, h₁) = ok_of_bind (required read_text "sub" object) _ claims h in
    let (iss, iss_read, h₂) = ok_of_bind (required read_text "iss" object) _ claims h₁ in
    let (aud, aud_read, h₃) = ok_of_bind (required read_text "aud" object) _ claims h₂ in
    let (exp, exp_read, h₄) = ok_of_bind (required read_number "exp" object) _ claims h₃ in
    let (iat, _, h₅) = ok_of_bind (required read_number "iat" object) _ claims h₄ in
    let same = ok_inj h₅ in
    record {
      iss = required-text "iss" object iss iss_read ∙ ap (λ c. some (text c.iss)) same;
      aud = required-text "aud" object aud aud_read ∙ ap (λ c. some (text c.aud)) same;
      exp = required-number "exp" object exp exp_read ∙ ap (λ c. some (number c.exp)) same;
    }

-- A token that the crate accepts under a key and the settings of `from_pem`.
pub record IsTrusted {K : Type 0} {jwt : Jsonwebtoken K} (laws : JsonwebtokenLaws jwt)
    (config : JwtConfig) (now : ℕ) (key : K) (token : String) (claims : Claims) : Type 0 where
  pub header : jwt.decode_header token ≡ ok ed_dsa
  pub ed_key : laws.kind key ≡ Family.ed
  pub signed : laws.IsSigned token key ed_dsa
  pub issuer : claims.iss ≡ unwrap_or "appgate" config.issuer
  pub audience : claims.aud ≡ unwrap_or "appgate-gateway" config.audience
  pub expiry : now ≤ claims.exp + 60

only_audience : (x y : String) → Any (λ a. Any (λ z. z ≡ a) (x ∷ [])) (y ∷ []) → y ≡ x
only_audience x y (inl h) = Any-sole x y h
only_audience x y (inr h) = absurd h

rsa-ne-ed : Family.rsa ≢ Family.ed
rsa-ne-ed h = cc

module _ {K : Type 0} (jwt : Jsonwebtoken K) (laws : JsonwebtokenLaws jwt)
    (read : String → Result Bytes String) (config : JwtConfig) where
  -- What `new` succeeds with.
  pub record IsBuilt (v : JwtValidator K) : Type 0 where
    pub path : String
    pub pem : Bytes
    pub configured : config.key_path ≡ some path
    pub was_read : read path ≡ ok pem
    pub parsed : decoding_key_of jwt pem ≡ ok v.decoding_key
    pub settings :
        v.validation
        ≡ restricted
            (unwrap_or "appgate" config.issuer)
            (unwrap_or "appgate-gateway" config.audience)
            (jwt.validation_new ed_dsa)

  from_pem-IsBuilt :
      (path : String) (pem : Bytes) (v : JwtValidator K)
      → config.key_path ≡ some path
      → read path ≡ ok pem
      → from_pem jwt pem
          (unwrap_or "appgate" config.issuer)
          (unwrap_or "appgate-gateway" config.audience)
        ≡ ok v
      → IsBuilt v
  unfolding from_pem
  from_pem-IsBuilt path pem v p r h =
      let (key, parsed, built) = ok_of_bind (decoding_key_of jwt pem) _ v h in
      let same = ok_inj built in
      record {
        path = path;
        pem = pem;
        configured = p;
        was_read = r;
        parsed = parsed ∙ ap (λ w. ok w.decoding_key) same;
        settings = sym (ap (λ w. w.validation) same);
      }

  no_key : (o : Option String) (v : JwtValidator K) → no_key_file jwt o ≡ ok v → ⊥
  no_key none v h = cc
  no_key (some url) v h = cc

  from_key_file-IsBuilt :
      (o : Option String) (v : JwtValidator K)
      → config.key_path ≡ o
      → from_key_file jwt read config o ≡ ok v
      → IsBuilt v
  from_key_file-IsBuilt none v p h = absurd (no_key config.jwks_url v h)
  from_key_file-IsBuilt (some path) v p h =
      let (pem, was_read, built) = ok_of_bind (map_err _ (read path)) _ v h in
      from_pem-IsBuilt path pem v p (ok_of_map_err _ (read path) pem was_read) built

  pub new-IsBuilt : (v : JwtValidator K) → new jwt read config ≡ ok v → IsBuilt v
  unfolding new
  new-IsBuilt v h = from_key_file-IsBuilt config.key_path v refl h

  trusted :
      (v : JwtValidator K) (now : ℕ) (token : String) (object : Object) (claims : Claims)
      → IsBuilt v
      → IsAccepted jwt laws.kind laws.IsSigned now token v.decoding_key v.validation object
      → Reads object claims
      → IsTrusted laws config now v.decoding_key token claims
  trusted v now token object claims b accepted reads =
      let fresh = jwt.validation_new ed_dsa in
      let is_ed : accepted.algorithm ≡ ed_dsa =
        Any-sole_of ed_dsa accepted.algorithm v.validation.algorithms
          (ap (λ w. w.algorithms) b.settings ∙ laws.new_algorithms ed_dsa) accepted.allowed in
      let leeway : v.validation.leeway ≡ 60 =
        ap (λ w. w.leeway) b.settings ∙ laws.new_leeway ed_dsa in
      let on : v.validation.validate_exp ≡ true = ap (λ w. w.validate_exp) b.settings in
      record {
        header = accepted.header ∙ ap ok is_ed;
        ed_key = sym accepted.fits_key ∙ ap family is_ed;
        signed = subst (λ a. laws.IsSigned token v.decoding_key a) is_ed accepted.signed;
        issuer =
            Any-sole _ claims.iss
              (accepted.issuer _ claims.iss (ap (λ w. w.iss) b.settings) reads.iss);
        audience =
            only_audience _ claims.aud
              (accepted.audience _ (text claims.aud) (ap (λ w. w.aud) b.settings) reads.aud);
        expiry = omega (arith, accepted.expiry claims.exp on reads.exp, leeway);
      }

  module _ (v : JwtValidator K) (built : new jwt read config ≡ ok v) (now : ℕ) (token : String)
      (claims : Claims) (passed : validate jwt now v token ≡ ok claims) where
    -- What passes a validator that `new` builds names EdDSA in its header, carries a signature
    -- that verifies under the configured key, which is an Ed25519 key, has the configured issuer
    -- and audience (or the built-in ones), and expired no more than a minute ago.
    pub validate-IsTrusted : IsTrusted laws config now v.decoding_key token claims
    unfolding validate
    validate-IsTrusted =
        let b = new-IsBuilt v built in
        let (object, decoded, read_claims) =
          ok_of_bind (jwt.decode now token v.decoding_key v.validation) claims_of claims
            (ok_of_map_err _ _ claims passed) in
        let accepted = laws.accepts now token v.decoding_key v.validation object decoded in
        trusted v now token object claims b accepted (claims_of-Reads object claims read_claims)

    -- No token passes a validator whose key is of another kind.
    other_key : laws.kind v.decoding_key ≢ Family.ed → ⊥
    other_key other = other (validate-IsTrusted).ed_key

  decoding_key_of-rsa :
      (pem : Bytes) (key : K) (e : String)
      → jwt.from_ed_pem pem ≡ err e
      → jwt.from_rsa_pem pem ≡ ok key
      → decoding_key_of jwt pem ≡ ok key
  unfolding decoding_key_of
  decoding_key_of-rsa pem key e h k = simp (h, k) refl

  pub built_from :
      (path : String) (pem : Bytes) (key : K)
      → config.key_path ≡ some path
      → read path ≡ ok pem
      → decoding_key_of jwt pem ≡ ok key
      → (v : JwtValidator K) × (new jwt read config ≡ ok v) × (v.decoding_key ≡ key)
  unfolding new from_pem
  built_from path pem key p r parsed = (
    record {
      decoding_key = key;
      validation =
          restricted (unwrap_or "appgate" config.issuer)
            (unwrap_or "appgate-gateway" config.audience) (jwt.validation_new ed_dsa);
    },
    simp (p, r, parsed) refl,
    refl,
  )

  -- An RSA key is loaded like an Ed25519 key, and then no token passes, at any time.
  pub new-rsa_refuses :
      (path : String) (pem : Bytes) (key : K) (e : String) (now : ℕ) (token : String)
      (claims : Claims)
      → config.key_path ≡ some path
      → read path ≡ ok pem
      → jwt.from_ed_pem pem ≡ err e
      → jwt.from_rsa_pem pem ≡ ok key
      → (v : JwtValidator K) × (new jwt read config ≡ ok v) × (validate jwt now v token ≢ ok claims)
  new-rsa_refuses path pem key e now token claims p r bad_ed good_rsa =
      let (v, built, same) =
        built_from path pem key p r (decoding_key_of-rsa pem key e bad_ed good_rsa) in
      let rsa : laws.kind v.decoding_key ≡ Family.rsa =
        ap laws.kind same ∙ laws.rsa_kind pem key good_rsa in
      let not_ed : laws.kind v.decoding_key ≢ Family.ed = λ h. rsa-ne-ed (sym rsa ∙ h) in
      (v, built, λ passed. other_key v built now token claims passed not_ed)
