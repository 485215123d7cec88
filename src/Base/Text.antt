-- ===== src/Base/Text.antt =====
-- Rust's `str` and `String`, where the library has no function of that name. A text is a list of
-- characters; the tests and the splits of the source are by ASCII patterns.
use Prim.Native.Char.{Char, code}
use Prim.Native.Nat.{ℕ, zero, suc}
use Prim.Native.String
use Prim.Native.String.{String}
use mathlib.Core.Path.{◌≡◌, refl, ap, sym, ◌∙◌}
use mathlib.Core.Logic.{inl, inr, ◌↔◌}
use mathlib.Core.Bool.{Bool, true, ◌&&◌, ◌||◌}
use mathlib.Core.List.{List, [], ◌∷◌}
use text.Mathlib.Text.{◌==◌}
use text.Mathlib.TextEquality.{eq_iff}
use text.Mathlib.TextLemmas.{nil-append, cons-append}
use app_gate.Base.Tests.{nat_eq, or_iff, if◌then◌else◌}

-- Concatenation of texts, as `format!` does it.
infixr 60 ◌+++◌
abbrev pub ◌+++◌ : String → String → String
s +++ t = String.◌++◌ s t

-- `s.ends_with(t)`: `t` is one of the tails of `s`.
unfoldable pub ends_with : String → String → Bool
ends_with String.[] t = "" == t
ends_with (String.◌∷◌ c s) t = String.◌∷◌ c s == t || ends_with s t

-- `s.trim_end_matches(c)`
unfoldable pub trim_end_matches : ℕ → String → String
trim_end_matches k String.[] = ""
trim_end_matches k (String.◌∷◌ c s) =
    let rest = trim_end_matches k s in
    if rest == "" && nat_eq (code c) k then "" else String.◌∷◌ c rest

-- The first piece of a split gets one more character in front.
push_front : Char → List String → List String
push_front c [] = String.◌∷◌ c "" ∷ []
push_front c (piece ∷ pieces) = String.◌∷◌ c piece ∷ pieces

-- `s.split(c)`: the pieces between the separators, empty ones too.
unfoldable pub split : ℕ → String → List String
unfolding push_front
split k String.[] = "" ∷ []
split k (String.◌∷◌ c s) =
    let pieces = split k s in if nat_eq (code c) k then "" ∷ pieces else push_front c pieces

-- `s.splitn(n, c)`: the same with at most `n` pieces, the last of them the rest of the text.
unfoldable pub splitn : ℕ → ℕ → String → List String
unfolding push_front
splitn zero k s = []
splitn (suc zero) k s = s ∷ []
splitn (suc (suc n)) k String.[] = "" ∷ []
splitn (suc (suc n)) k (String.◌∷◌ c s) =
    let cut = "" ∷ splitn (suc n) k s in
    let kept = push_front c (splitn (suc (suc n)) k s) in if nat_eq (code c) k then cut else kept

ends_with_sound : (s t : String) → ends_with s t ≡ true → (p : String) × (s ≡ p +++ t)
unfolding ends_with
ends_with_sound String.[] t h = ("", (eq_iff "" t).0 h ∙ sym (nil-append t))
ends_with_sound (String.◌∷◌ c s) t h = elim ((or_iff _ _).0 h) [
  | inl whole ↦ ("", (eq_iff _ t).0 whole ∙ sym (nil-append t))
  | inr later ↦
      let (p, e) = ends_with_sound s t later in
      (String.◌∷◌ c p, ap (String.◌∷◌ c) e ∙ sym (cons-append c p t))
]

ends_with_self : (t : String) → ends_with t t ≡ true
unfolding ends_with
ends_with_self String.[] = refl
ends_with_self (String.◌∷◌ c s) =
    let t : String = String.◌∷◌ c s in
    (or_iff (t == t) (ends_with s t)).1 (inl ((eq_iff t t).1 refl))

ends_with_tail :
    (c : Char) (s t : String) → ends_with s t ≡ true → ends_with (String.◌∷◌ c s) t ≡ true
unfolding ends_with
ends_with_tail c s t h = (or_iff (String.◌∷◌ c s == t) (ends_with s t)).1 (inr h)

-- A text that has `t` at its end ends with it.
pub ends_with-append : (p t : String) → ends_with (p +++ t) t ≡ true
ends_with-append String.[] t = rw nil-append (ends_with_self t)
ends_with-append (String.◌∷◌ c p) t =
    rw cons-append (ends_with_tail c (p +++ t) t (ends_with-append p t))

-- A text ends with `t` exactly when it is something followed by `t`.
pub ends_with_iff : (s t : String) → (ends_with s t ≡ true) ↔ ((p : String) × (s ≡ p +++ t))
ends_with_iff s t = (ends_with_sound s t, λ w. rw w.1 (ends_with-append w.0 t))

split_example : split b',' "a,,b" ≡ "a" ∷ "" ∷ "b" ∷ []
unfolding split
split_example = refl

splitn_example : splitn 3 b'=' "/v1=openai=https://x?a=b" ≡ "/v1" ∷ "openai" ∷ "https://x?a=b" ∷ []
unfolding splitn
splitn_example = refl

trim_end_matches_example : trim_end_matches b'/' "http://x//" ≡ "http://x"
unfolding trim_end_matches
trim_end_matches_example = refl
