-- ===== src/RustGateway/Health/Refinement.antt =====
-- The table of rust-gateway/src/health.rs beside one machine for each upstream.
use mathlib.Core.Option
use app_gate.Base.{
  ℕ, String, ◌≡◌, refl, ap, ◌∙◌, Bool, true, false, Option, none, some, List, [], ◌∷◌, ◌==◌,
  if◌then◌else◌,
}
use app_gate.Base.Assoc.{lookup, lookup-modify}
use app_gate.RustGateway.Health.{HealthStatus, Upstreams, checked, check}

-- The checks of the background task, each with its upstream and its outcome.
abbrev pub Checks : Type 0
Checks = List (String × Option ℕ)

unfoldable pub run : Upstreams → Checks → Upstreams
run upstreams [] = upstreams
run upstreams ((name, outcome) ∷ rest) = run (check name outcome upstreams) rest

-- The outcomes of one upstream.
unfoldable pub outcomes_of : String → Checks → List (Option ℕ)
outcomes_of name [] = []
outcomes_of name ((other, outcome) ∷ rest) =
    if other == name then outcome ∷ outcomes_of name rest else outcomes_of name rest

-- One upstream on its own.
unfoldable pub observe : HealthStatus → List (Option ℕ) → HealthStatus
observe status [] = status
observe status (outcome ∷ outcomes) = observe (checked outcome status) outcomes

pub map-map :
    (f g : HealthStatus → HealthStatus) (o : Option HealthStatus)
    → Option.map g (Option.map f o) ≡ Option.map (λ s. g (f s)) o
map-map f g none = refl
map-map f g (some s) = refl

pub map_id : (o : Option HealthStatus) → o ≡ Option.map (λ s. s) o
map_id none = refl
map_id (some s) = refl

taken :
    (mine : Bool) (o : Option HealthStatus) (outcome : Option ℕ) (rest : List (Option ℕ))
    → Option.map (λ s. observe s rest) (if mine then Option.map (checked outcome) o else o)
      ≡ Option.map (λ s. observe s (if mine then outcome ∷ rest else rest)) o
unfolding observe
taken true o outcome rest = map-map (checked outcome) (λ s. observe s rest) o
taken false o outcome rest = refl

-- The entry of an upstream after any checks is what the outcomes of its own checks make of it, in
-- their order: the checks of others make no difference, and no entry comes or goes.
pub lookup-run :
    (name : String) (upstreams : Upstreams) (checks : Checks)
    → lookup name (run upstreams checks)
      ≡ Option.map (λ s. observe s (outcomes_of name checks)) (lookup name upstreams)
unfolding run outcomes_of observe check
lookup-run name upstreams [] = map_id (lookup name upstreams)
lookup-run name upstreams ((other, outcome) ∷ rest) =
    lookup-run name (check other outcome upstreams) rest
    ∙ (ap (Option.map (λ s. observe s (outcomes_of name rest)))
          (lookup-modify other name (checked outcome) upstreams)
        ∙ taken (other == name) (lookup name upstreams) outcome (outcomes_of name rest))
