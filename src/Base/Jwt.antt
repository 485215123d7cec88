-- ===== src/Base/Jwt.antt =====
-- The third-party crate `jsonwebtoken`: what the validators call of it, and its documentation as
-- laws. Keys are of a type `K`; what decoding a token gives is the object of its claims.
pub mod Sample
use Prim.Native.Nat.{ℕ, ◌+◌, ◌≤◌}
use Prim.Native.String.{String}
use mathlib.Core.Option.{Option, none, some}
use mathlib.Core.List.{List, [], ◌∷◌}
use mathlib.Core.Bool.{Bool, true}
use mathlib.Core.Path.{◌≡◌}
use app_gate.Base.Assoc.{lookup}
use app_gate.Base.Http.{Bytes}
use app_gate.Base.Json.{Value, text, texts, number, Object}
use app_gate.Base.Lists.{Any}
use app_gate.Base.Result.{Result, ok}

pub data Family : Type 0 where
  hmac rsa ec ed : Family

pub data Algorithm : Type 0 where
  hs256 hs384 hs512 es256 es384 rs256 rs384 rs512 ps256 ps384 ps512 ed_dsa : Algorithm

abbrev pub family : Algorithm → Family
family hs256 = Family.hmac
family hs384 = Family.hmac
family hs512 = Family.hmac
family es256 = Family.ec
family es384 = Family.ec
family rs256 = Family.rsa
family rs384 = Family.rsa
family rs512 = Family.rsa
family ps256 = Family.rsa
family ps384 = Family.rsa
family ps512 = Family.rsa
family ed_dsa = Family.ed

pub record Validation : Type 0 where
  pub algorithms : List Algorithm
  pub leeway : ℕ
  pub validate_exp : Bool
  pub validate_nbf : Bool
  pub iss : Option (List String)
  pub aud : Option (List String)

pub record Jsonwebtoken (K : Type 0) : Type 0 where
  pub from_ed_pem : Bytes → Result K String
  pub from_rsa_pem : Bytes → Result K String
  pub from_ec_pem : Bytes → Result K String
  pub validation_new : Algorithm → Validation
  -- The algorithm that the header of a token names.
  pub decode_header : String → Result Algorithm String
  -- The time is the first argument.
  pub decode : ℕ → String → K → Validation → Result Object String

-- The audiences of a token's claim.
abbrev pub audiences : Value → List String
audiences (text s) = s ∷ []
audiences (texts ss) = ss
audiences Value.null = []
audiences Value.other = []
audiences (number n) = []

-- What the documentation says of a token that is accepted at `now`.
pub record IsAccepted {K : Type 0} (jwt : Jsonwebtoken K) (kind : K → Family)
    (IsSigned : String → K → Algorithm → Type 0) (now : ℕ) (token : String) (key : K)
    (v : Validation) (claims : Object) : Type 0 where
  pub algorithm : Algorithm
  pub header : jwt.decode_header token ≡ ok algorithm
  pub allowed : Any (λ a. a ≡ algorithm) v.algorithms
  pub fits_key : family algorithm ≡ kind key
  pub signed : IsSigned token key algorithm
  pub issuer :
      (xs : List String) (s : String)
      → v.iss ≡ some xs
      → lookup "iss" claims ≡ some (text s)
      → Any (λ x. x ≡ s) xs
  pub audience :
      (xs : List String) (value : Value)
      → v.aud ≡ some xs
      → lookup "aud" claims ≡ some value
      → Any (λ a. Any (λ x. x ≡ a) xs) (audiences value)
  pub expiry :
      (e : ℕ) → v.validate_exp ≡ true → lookup "exp" claims ≡ some (number e) → now ≤ e + v.leeway

pub record JsonwebtokenLaws {K : Type 0} (jwt : Jsonwebtoken K) : Type 1 where
  -- The family of a key, and that the signature of a token verifies.
  pub kind : K → Family
  pub IsSigned : String → K → Algorithm → Type 0
  pub ed_kind : (pem : Bytes) (k : K) → jwt.from_ed_pem pem ≡ ok k → kind k ≡ Family.ed
  pub rsa_kind : (pem : Bytes) (k : K) → jwt.from_rsa_pem pem ≡ ok k → kind k ≡ Family.rsa
  pub ec_kind : (pem : Bytes) (k : K) → jwt.from_ec_pem pem ≡ ok k → kind k ≡ Family.ec
  pub new_algorithms : (a : Algorithm) → (jwt.validation_new a).algorithms ≡ a ∷ []
  pub new_leeway : (a : Algorithm) → (jwt.validation_new a).leeway ≡ 60
  pub new_exp : (a : Algorithm) → (jwt.validation_new a).validate_exp ≡ true
  pub accepts :
      (now : ℕ) (token : String) (key : K) (v : Validation) (claims : Object)
      → jwt.decode now token key v ≡ ok claims
      → IsAccepted jwt kind IsSigned now token key v claims
