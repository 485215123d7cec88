-- ===== src/Base/Jwt/Sample.antt =====
-- A concrete `jsonwebtoken` for tests. A key is its family, a key file is one digit, and every token
-- has the same claims; what the documentation asks of a token is tested.
use Prim.Native.Nat.{ℕ, ◌+◌}
use Prim.Native.String.{String}
use mathlib.Core.Bool.{Bool, true, false, ◌&&◌, false≢true}
use mathlib.Core.List.{List, [], ◌∷◌}
use mathlib.Core.Logic.{inl}
use mathlib.Core.Option.{Option, none, some}
use mathlib.Core.Path.{◌≡◌, refl, sym, subst}
use native.Mathlib.Omega.{arith}
use package.text.Mathlib.Text.{◌==◌}
use app_gate.Base.Assoc.{lookup}
use app_gate.Base.Http.{Bytes}
use app_gate.Base.Json.{text, number, Object}
use app_gate.Base.Jwt.{
  Family, Algorithm, ed_dsa, rs256, hs256, family, Validation, audiences, Jsonwebtoken, IsAccepted,
  JsonwebtokenLaws,
}
use app_gate.Base.Lists.{Any, contains, contains_iff}
use app_gate.Base.Result.{Result, ok, err, ◌>>=◌, ok_of_bind}
use app_gate.Base.Tests.{leb, nat_eq, if◌then◌else◌}

unfoldable pub Algorithm-discrete : Discrete Algorithm
Algorithm-discrete = hlevel

unfoldable pub Family-discrete : Discrete Family
Family-discrete = hlevel

abbrev listed : List Algorithm → Algorithm → Bool
listed [] a = false
listed (x ∷ xs) a = elim (Algorithm-discrete x a) [ yes e ↦ true | no n ↦ listed xs a ]

listed-Any : (xs : List Algorithm) (a : Algorithm) → listed xs a ≡ true → Any (λ x. x ≡ a) xs
listed-Any [] a h = absurd (false≢true h)
listed-Any (x ∷ xs) a h = ground (arith, listed-Any xs a)

abbrev same_family : Family → Family → Bool
same_family f g = elim (Family-discrete f g) [ yes e ↦ true | no n ↦ false ]

same_family-eq : (f g : Family) → same_family f g ≡ true → f ≡ g
same_family-eq f g h = ground arith

abbrev allows : Option (List String) → String → Bool
allows none s = true
allows (some xs) s = contains xs s

abbrev unexpired : Validation → ℕ → ℕ → Bool
unexpired v now exp = if v.validate_exp then leb now (exp + v.leeway) else true

-- The claims of every token.
abbrev pub claims_for : String → String → ℕ → Object
claims_for iss aud exp =
    ("sub", text "user-1")
    ∷ ("iss", text iss)
    ∷ ("aud", text aud)
    ∷ ("exp", number exp)
    ∷ ("iat", number 0)
    ∷ []

abbrev header_of : String → Result Algorithm String
header_of token = if token == "ed" then ok ed_dsa else if token == "rs" then ok rs256 else ok hs256

abbrev key_from : ℕ → Family → Bytes → Result Family String
key_from n f [] = err "empty"
key_from n f (b ∷ rest) = if nat_eq b n then ok f else err "wrong form"

module _ (iss aud : String) (exp : ℕ) where
  abbrev passes : ℕ → Algorithm → Family → Validation → Bool
  passes now a key v =
      listed v.algorithms a
      && (same_family (family a) key
          && (allows v.iss iss && (allows v.aud aud && unexpired v now exp)))

  unfoldable pub sample : Jsonwebtoken Family
  sample = record {
    from_ed_pem = key_from 49 Family.ed;
    from_rsa_pem = key_from 50 Family.rsa;
    from_ec_pem = key_from 51 Family.ec;
    validation_new = λ a. record {
      algorithms = a ∷ [];
      leeway = 60;
      validate_exp = true;
      validate_nbf = false;
      iss = none;
      aud = none;
    };
    decode_header = header_of;
    decode = λ now token key v. header_of token >>= λ a.
        if passes now a key v then ok (claims_for iss aud exp) else err "refused";
  }

  kind_of : (n : ℕ) (f k : Family) (pem : Bytes) → key_from n f pem ≡ ok k → k ≡ f
  kind_of n f k [] h = cc
  kind_of n f k (b ∷ rest) h = ground arith

  allows-Any :
      (o : Option (List String)) (xs : List String) (x y : String)
      → allows o x ≡ true
      → o ≡ some xs
      → x ≡ y
      → Any (λ z. z ≡ y) xs
  allows-Any none xs x y h e same = cc
  allows-Any (some ys) xs x y h e same =
      let there : contains xs y ≡ true = ground arith in (contains_iff xs y).0 there

  passed-IsAccepted :
      (now : ℕ) (token : String) (a : Algorithm) (key : Family) (v : Validation)
      → header_of token ≡ ok a
      → passes now a key v ≡ true
      → IsAccepted sample (λ k. k) (λ t k a. Unit {0}) now token key v (claims_for iss aud exp)
  unfolding sample lookup
  passed-IsAccepted now token a key v header passed = record {
    algorithm = a;
    header = header;
    allowed = listed-Any v.algorithms a (ground arith);
    fits_key = same_family-eq (family a) key (ground arith);
    signed = tt;
    issuer = λ xs s e named. allows-Any v.iss xs iss s (ground arith) e (cc);
    audience = λ xs value e named.
        let is_text : text aud ≡ value = cc in
        subst (λ w. Any (λ b. Any (λ x. x ≡ b) xs) (audiences w)) is_text
          (inl (allows-Any v.aud xs aud aud (ground arith) e refl));
    expiry = λ e on named. let same : exp ≡ e = cc in ground arith;
  }

  accepted :
      (now : ℕ) (token : String) (key : Family) (v : Validation) (claims : Object)
      → sample.decode now token key v ≡ ok claims
      → IsAccepted sample (λ k. k) (λ t k a. Unit {0}) now token key v claims
  unfolding sample
  accepted now token key v claims h =
      let (a, header, rest) = ok_of_bind (header_of token) _ claims h in
      let passed : passes now a key v ≡ true = ground arith in
      let same : claims ≡ claims_for iss aud exp = ground arith in
      subst (λ c. IsAccepted sample (λ k. k) (λ t k a. Unit {0}) now token key v c) (sym same)
        (passed-IsAccepted now token a key v header passed)

  pub sample-JsonwebtokenLaws : JsonwebtokenLaws sample
  unfolding sample
  sample-JsonwebtokenLaws = record {
    kind = λ k. k;
    IsSigned = λ t k a. Unit {0};
    ed_kind = λ pem k h. kind_of 49 Family.ed k pem h;
    rsa_kind = λ pem k h. kind_of 50 Family.rsa k pem h;
    ec_kind = λ pem k h. kind_of 51 Family.ec k pem h;
    new_algorithms = λ a. refl;
    new_leeway = λ a. refl;
    new_exp = λ a. refl;
    accepts = accepted;
  }
