-- ===== src/Base/Prometheus/Sample.antt =====
-- Concrete counters for tests: the list of the label values that were counted.
use Prim.Native.Nat.{ℕ, suc, ◌+◌}
use Prim.Native.String.{String}
use mathlib.Core.Bool.{Bool, true, false, ◌&&◌}
use mathlib.Core.List.{List, [], ◌∷◌}
use mathlib.Core.Path.{◌≡◌, refl}
use native.Mathlib.Omega.{arith}
use text.Mathlib.Text.{◌==◌}
use text.Mathlib.TextEquality.{eq_iff}
use app_gate.Base.Prometheus.{CounterVec, CounterVecLaws, HistogramVec}
use app_gate.Base.Tests.{if◌then◌else◌}

abbrev same : List String → List String → Bool
same [] [] = true
same [] (y ∷ ys) = false
same (x ∷ xs) [] = false
same (x ∷ xs) (y ∷ ys) = x == y && same xs ys

abbrev occurrences : List String → List (List String) → ℕ
occurrences asked [] = 0
occurrences asked (labels ∷ rest) =
    if same labels asked then suc (occurrences asked rest) else occurrences asked rest

abbrev pub sample : CounterVec (List (List String))
sample = record { inc = λ labels v. labels ∷ v; value = occurrences }

abbrev pub no_histogram : HistogramVec ℕ ℕ
no_histogram = record { observe = λ labels x h. h + 1 }

same_refl : (xs : List String) → same xs xs ≡ true
same_refl [] = refl
same_refl (x ∷ xs) = ground (arith, same_refl xs, eq_iff x x)

same-eq : (xs ys : List String) → same xs ys ≡ true → xs ≡ ys
same-eq [] [] h = refl
same-eq [] (y ∷ ys) h = cc
same-eq (x ∷ xs) [] h = cc
same-eq (x ∷ xs) (y ∷ ys) h = ground (arith, same-eq xs ys, eq_iff x y)

pub sample-CounterVecLaws : CounterVecLaws sample
sample-CounterVecLaws = record {
  own = λ labels v. ground (arith, same_refl labels);
  others = λ labels asked v h. ground (arith, same-eq labels asked, h);
}
