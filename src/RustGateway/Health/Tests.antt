-- ===== src/RustGateway/Health/Tests.antt =====
-- Two upstreams, one of which fails.
use app_gate.Base.{
  ℕ, String, Option, List, ◌≡◌, refl, inr, none, some, [], ◌∷◌, replicate, ltb, arith, filter, map,
}
use app_gate.Base.Assoc.{insert, modify, keys}
use app_gate.RustGateway.Health.{Upstreams, register, is_healthy, all_healthy, check}
use app_gate.RustGateway.Health.Refinement.{Checks, run}
use app_gate.RustGateway.Health.Round.{Distinct}
use app_gate.RustGateway.Health.Rounds.{rounds, rounds-is_healthy}
use app_gate.RustGateway.Health.Threshold.{EndsInFailures}

abbrev one : Upstreams
one = register 0 "http://b" []

abbrev checks : Checks
checks =
    ("http://a", some 12)
    ∷ ("http://a", none)
    ∷ ("http://b", some 7)
    ∷ ("http://a", none)
    ∷ ("http://a", none)
    ∷ []

-- The other one is still listed.
listed : all_healthy (run (register 0 "http://a" one) checks) ≡ "http://b" ∷ []
unfolding all_healthy run register filter check modify insert
listed = refl

-- A check of each upstream, in both orders.
abbrev a_then_b : Checks
a_then_b = ("http://a", none) ∷ ("http://b", some 7) ∷ []

abbrev b_then_a : Checks
b_then_a = ("http://b", some 7) ∷ ("http://a", none) ∷ []

-- In the first round every request is answered, in the next three none.
abbrev answered : String → Option ℕ
answered name = some 5

abbrev unanswered : String → Option ℕ
unanswered name = none

abbrev four : List (String → Option ℕ)
four = answered ∷ unanswered ∷ unanswered ∷ unanswered ∷ []

four-EndsInFailures : EndsInFailures 3 (map (λ o. o "http://a") four)
unfolding replicate
four-EndsInFailures = inr ([], 5, refl)

one-Distinct : Distinct (keys one)
unfolding register insert keys
one-Distinct = (tt, tt)

rounds-is_healthy_example :
    is_healthy "http://a" (rounds four (register 0 "http://a" one)) ≡ ltb 3 3
rounds-is_healthy_example =
    rounds-is_healthy 0 3 "http://a" one four one-Distinct (omega arith) four-EndsInFailures
