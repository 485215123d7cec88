-- ===== src/RustGateway/RateLimit/Service.antt =====
-- rust-gateway/src/rate_limit.rs: the service, which asks Redis or a local limiter. A connection is
-- the store behind it; `connect` opens a client and gets its connection manager.
use app_gate.Base.{ℕ, String, Bool, true, Option, none, some, ◌==◌, if◌then◌else◌}
use app_gate.Base.Governor.{Governor, per_second, is_ok}
use app_gate.Base.Result.{Result, ok, ◌>>=◌}
use app_gate.RustGateway.RateLimit.{Redis, check_redis}

pub record RateLimiterService (S L : Type 0) : Type 0 where
  pub redis : Option S
  pub local : Option L

-- The arguments of one check, with the time and the identifier that it takes if it asks Redis.
pub record Check : Type 0 where
  pub identity : String
  pub limit : ℕ
  pub window : ℕ
  pub now : ℕ
  pub member : String

module _ {S L : Type 0} (redis : Redis S) (governor : Governor L) where
  unfoldable pub new_local : RateLimiterService S L
  new_local = record { redis = none; local = some (governor.direct (per_second 1000)) }

  unfoldable pub new :
      (String → Result S String) → Option String → Result (RateLimiterService S L) String
  new connect none = ok new_local
  new connect (some url) =
      if url == ""
      then ok new_local
      else connect url >>= λ conn. ok (record { redis = some conn; local = none })

  abbrev check_local : ℕ → Option L → Bool × Option L
  check_local now none = (true, none)
  check_local now (some limiter) =
      let (answer, next) = governor.check now limiter in (is_ok answer, some next)

  abbrev check_on :
      Check → RateLimiterService S L → Option S → Result (Bool × RateLimiterService S L) String
  check_on c s (some conn) =
      check_redis redis c.identity c.member c.now c.limit c.window conn >>= λ r.
      ok (r.0, record s { redis = some r.1 })
  check_on c s none =
      let (answer, local) = check_local c.now s.local in ok (answer, record s { local = local })

  -- With the service that the check leaves.
  unfoldable pub check :
      Check → RateLimiterService S L → Result (Bool × RateLimiterService S L) String
  check c s = check_on c s s.redis
