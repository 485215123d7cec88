-- ===== src/Gateway/RateLimit/Tests.antt =====
-- A limiter of a burst of 2000 that is switched off and on.
use app_gate.Base.{ℕ, ◌≡◌, refl, true, false, none, List, [], ◌∷◌}
use app_gate.Base.Governor.{Governor, countdown, per_second, allow_burst}
use app_gate.Gateway.RateLimit.{new}
use app_gate.Gateway.RateLimit.Switch.{
  Event, checked, switched, answers, passes, moments, answers-passes,
}

abbrev none_left : Governor ℕ
none_left = record countdown { direct = λ quota. 1 }

abbrev events : List (Event ℕ)
events =
    checked "a" none 1
    ∷ checked "b" none 2
    ∷ switched false
    ∷ checked "b" none 3
    ∷ switched true
    ∷ checked "a" none 4
    ∷ []

run_switches :
    passes none_left
      (moments events)
      true
      (none_left.direct (record { per_second = 1000; burst = 2000 }))
    ≡ true ∷ false ∷ true ∷ false ∷ []
unfolding passes
run_switches = refl

answers-passes_example :
    answers none_left events (new none_left "redis://cache")
    ≡ passes none_left (moments events) true (none_left.direct (allow_burst 2000 (per_second 1000)))
answers-passes_example = answers-passes none_left "redis://cache" events
