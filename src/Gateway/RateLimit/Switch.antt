-- ===== src/Gateway/RateLimit/Switch.antt =====
-- What a limiter answers over a run in which it is switched on and off.
use app_gate.Base.{ℕ, String, ◌≡◌, refl, ap, Bool, true, false, Option, some, List, [], ◌∷◌}
use app_gate.Base.Governor.{Governor, per_second, allow_burst, is_ok}
use app_gate.Gateway.RateLimit.{DistributedRateLimiter, set_enabled, new, check}

pub data Event (A : Type 0) : Type 0 where
  checked : String → Option A → ℕ → Event A
  switched : Bool → Event A

-- Only the time of the checks and the switching matters to a limiter.
pub data Moment : Type 0 where
  at : ℕ → Moment
  turned : Bool → Moment

abbrev pub moments : {A : Type 0} → List (Event A) → List Moment
moments [] = []
moments (checked key limits now ∷ es) = at now ∷ moments es
moments (switched b ∷ es) = turned b ∷ moments es

module _ {L : Type 0} (governor : Governor L) where
  unfoldable pub answers : {A : Type 0} → List (Event A) → DistributedRateLimiter L → List Bool
  answers [] s = []
  answers (checked key limits now ∷ es) s =
      let (answer, next) = check governor key limits now s in answer ∷ answers es next
  answers (switched b ∷ es) s = answers es (set_enabled b s)

  -- One limiter, asked while the switch is on; everything passes while it is off.
  unfoldable pub passes : List Moment → Bool → L → List Bool
  passes [] on limiter = []
  passes (at now ∷ ms) true limiter =
      let (answer, next) = governor.check now limiter in is_ok answer ∷ passes ms true next
  passes (at now ∷ ms) false limiter = true ∷ passes ms false limiter
  passes (turned b ∷ ms) on limiter = passes ms b limiter

  passes_from :
      {A : Type 0} (es : List (Event A)) (on : Bool) (limiter : L)
      → answers es (record { local = some limiter; enabled = on }) ≡ passes (moments es) on limiter
  unfolding answers check passes
  passes_from [] on limiter = refl
  passes_from (checked key limits now ∷ es) true limiter =
      ap (λ rest. is_ok (governor.check now limiter).0 ∷ rest)
        (passes_from es true (governor.check now limiter).1)
  passes_from (checked key limits now ∷ es) false limiter =
      ap (λ rest. true ∷ rest) (passes_from es false limiter)
  passes_from (switched b ∷ es) on limiter = passes_from es b limiter

  -- Over any run of checks and switches, a new service answers as one limiter of 1000 a second and
  -- bursts of 2000 that is asked while it is switched on, and lets everything pass while it is
  -- off: the key, the limits of the policy and the address of the Redis server change nothing.
  pub answers-passes :
      {A : Type 0} (redis_url : String) (es : List (Event A))
      → answers es (new governor redis_url)
        ≡ passes (moments es) true (governor.direct (allow_burst 2000 (per_second 1000)))
  unfolding new
  answers-passes redis_url es =
      passes_from es true (governor.direct (allow_burst 2000 (per_second 1000)))
