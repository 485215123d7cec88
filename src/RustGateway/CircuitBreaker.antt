-- ===== src/RustGateway/CircuitBreaker.antt =====
-- rust-gateway/src/circuit_breaker.rs: the breaker of one upstream. An `Instant` is a number of
-- nanoseconds, and the clock is an argument of the methods that read it.
pub mod Trace
pub mod Automaton
pub mod Refinement
pub mod Invariant
pub mod Recovery
pub mod Registry
pub mod Defaults
mod Tests
use app_gate.Base.{ℕ, ◌+◌, ◌-◌, ◌*◌, Bool, true, false, Option, none, some, ltb, leb, if◌then◌else◌}
use app_gate.Base.Words.{u32}
use app_gate.RustGateway.Config.{CircuitBreakerConfig}

-- `CircuitState::Open` is `opened`, since `open` is a keyword here.
pub data CircuitState : Type 0 where
  closed opened half_open : CircuitState

pub record CircuitBreaker : Type 0 where
  pub state : CircuitState
  pub failures : ℕ  -- u32
  pub last_failure : Option ℕ
  pub success_count : ℕ  -- u32
  pub config : CircuitBreakerConfig

unfoldable pub new : CircuitBreakerConfig → CircuitBreaker
new config = record {
  state = closed;
  failures = 0;
  last_failure = none;
  success_count = 0;
  config = config;
}

-- `Duration::from_millis`, in nanoseconds.
abbrev pub from_millis : ℕ → ℕ
from_millis ms = ms * 1000000

-- `last.elapsed()` is 0 for an instant in the future, as the truncated difference is.
abbrev pub elapsed : ℕ → ℕ → ℕ
elapsed now last = now - last

-- The `Open` arm of `allow`.
abbrev allow_opened : ℕ → Option ℕ → CircuitBreaker → CircuitBreaker × Bool
allow_opened now none b = (b, false)
allow_opened now (some last) b =
    if ltb (from_millis b.config.recovery_timeout_ms) (elapsed now last)
    then (record b { state = half_open; success_count = 0 }, true)
    else (b, false)

abbrev allow_in : CircuitState → ℕ → CircuitBreaker → CircuitBreaker × Bool
allow_in closed now b = (b, true)
allow_in opened now b = allow_opened now b.last_failure b
allow_in half_open now b = (b, ltb b.success_count b.config.half_open_max_calls)

unfoldable pub allow : ℕ → CircuitBreaker → CircuitBreaker × Bool
allow now b = allow_in b.state now b

abbrev record_success_in : CircuitState → CircuitBreaker → CircuitBreaker
record_success_in half_open b =
    let b' = record b { success_count = u32 (b.success_count + 1) } in
    if leb b.config.half_open_max_calls b'.success_count
    then record b' { state = closed; failures = 0; success_count = 0 }
    else b'
record_success_in closed b = record b { failures = b.failures - 1 }
record_success_in opened b = b

unfoldable pub record_success : CircuitBreaker → CircuitBreaker
record_success b = record_success_in b.state b

unfoldable pub record_failure : ℕ → CircuitBreaker → CircuitBreaker
record_failure now b =
    let b' = record b { failures = u32 (b.failures + 1); last_failure = some now } in
    if leb b.config.failure_threshold b'.failures then record b' { state = opened } else b'
