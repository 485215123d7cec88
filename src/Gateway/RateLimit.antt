-- ===== src/Gateway/RateLimit.antt =====
-- gateway/src/rate_limit.rs. The limiter of the crate `governor` is a parameter.
pub mod Switch
mod Tests
use app_gate.Base.{ℕ, String, Bool, true, false, Option, none, some, if◌then◌else◌}
use app_gate.Base.Governor.{Governor, per_second, allow_burst, is_ok}

pub record DistributedRateLimiter (L : Type 0) : Type 0 where
  pub local : Option L
  pub enabled : Bool

abbrev pub set_enabled : {L : Type 0} → Bool → DistributedRateLimiter L → DistributedRateLimiter L
set_enabled enabled s = record s { enabled = enabled }

module _ {L : Type 0} (governor : Governor L) where
  -- The address of the Redis server is not used.
  unfoldable pub new : String → DistributedRateLimiter L
  new redis_url = record {
    local = some (governor.direct (allow_burst 2000 (per_second 1000)));
    enabled = true;
  }

  unfoldable pub new_local : DistributedRateLimiter L
  new_local = record {
    local = some (governor.direct (allow_burst 1000 (per_second 500)));
    enabled = true;
  }

  abbrev check_limiter : ℕ → Option L → Bool × Option L
  check_limiter now none = (true, none)
  check_limiter now (some limiter) =
      let (answer, next) = governor.check now limiter in (is_ok answer, some next)

  -- `check` of a key at a time, with what it leaves. The limits of the policy are not used.
  unfoldable pub check :
      {A : Type 0}
      → String
      → Option A
      → ℕ
      → DistributedRateLimiter L
      → Bool × DistributedRateLimiter L
  check key policy_limits now s =
      let (answer, local) = check_limiter now s.local in
      if s.enabled then (answer, record s { local = local }) else (true, s)
