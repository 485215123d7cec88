-- ===== src/Base/Split.antt =====
-- Splitting a text at a separator undoes joining pieces that lack it.
use Prim.Native.Char.{Char, code}
use Prim.Native.Nat.{ℕ, suc}
use Prim.Native.String.{String}
use mathlib.Core.Path.{◌≡◌, refl}
use mathlib.Core.Logic.{◌≢◌}
use mathlib.Core.List.{[], ◌∷◌}
use native.Mathlib.Omega.{arith}
use text.Mathlib.TextLemmas.{nil-append, cons-append}
use app_gate.Base.Text.{◌+++◌, split, splitn}

-- No character of the text has the code `k`.
abbrev pub Lacks : ℕ → String → Type 0
Lacks k String.[] = Unit
Lacks k (String.◌∷◌ c s) = (code c ≢ k) × Lacks k s

pub Lacks-append : (k : ℕ) (s t : String) → Lacks k s → Lacks k t → Lacks k (s +++ t)
Lacks-append k String.[] t h q = rw nil-append q
Lacks-append k (String.◌∷◌ c s) t (p, h) q = rw cons-append (p, Lacks-append k s t h q)

module _ (sep : Char) where
  -- `s`, the separator and `t`.
  abbrev pub joined : String → String → String
  joined s t = s +++ String.◌∷◌ sep t

  pub split_lacking : (s : String) → Lacks (code sep) s → split (code sep) s ≡ s ∷ []
  unfolding split
  split_lacking String.[] h = refl
  split_lacking (String.◌∷◌ c s) (p, h) = ground (arith, split_lacking s h)

  pub split-joined :
      (s t : String) → Lacks (code sep) s → split (code sep) (joined s t) ≡ s ∷ split (code sep) t
  unfolding split
  split-joined String.[] t h = rw nil-append (ground arith)
  split-joined (String.◌∷◌ c s) t (p, h) = rw cons-append (ground (arith, split-joined s t h))

  pub splitn-joined :
      (n : ℕ) (s t : String)
      → Lacks (code sep) s
      → splitn (suc (suc n)) (code sep) (joined s t) ≡ s ∷ splitn (suc n) (code sep) t
  unfolding splitn
  splitn-joined n String.[] t h = rw nil-append (ground arith)
  splitn-joined n (String.◌∷◌ c s) t (p, h) = rw cons-append (ground (arith, splitn-joined n s t h))
