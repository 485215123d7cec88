-- ===== src/RustGateway/CircuitBreaker/Trace.antt =====
-- A life of a breaker: the calls that its users make, in order, and what they are told.
use app_gate.Base.{ℕ, Bool, List, [], ◌∷◌}
use app_gate.RustGateway.CircuitBreaker.{CircuitBreaker, allow, record_success, record_failure}

-- Each call carries the clock's reading where the method reads the clock.
pub data Call : Type 0 where
  ask : ℕ → Call
  success : Call
  failure : ℕ → Call

unfoldable pub step : CircuitBreaker → Call → CircuitBreaker
unfolding allow record_success record_failure
step b (ask now) = (allow now b).0
step b success = record_success b
step b (failure now) = record_failure now b

unfoldable pub run : CircuitBreaker → List Call → CircuitBreaker
run b [] = b
run b (c ∷ cs) = run (step b c) cs

-- The answers of the `allow` calls, in order.
abbrev pub answer : CircuitBreaker → Call → List Bool → List Bool
answer b (ask now) rest = (allow now b).1 ∷ rest
answer b _ rest = rest

unfoldable pub answers : CircuitBreaker → List Call → List Bool
answers b [] = []
answers b (c ∷ cs) = answer b c (answers (step b c) cs)
