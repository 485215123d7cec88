-- ===== src/RustGateway/CircuitBreaker/Invariant.antt =====
-- What holds of a breaker between two calls.
use app_gate.Base.{ℕ, suc, ◌+◌, ◌≤◌, ◌<◌, ◌≡◌, ◌≢◌, ◌⊎◌, none, some, List, [], ◌∷◌, arith, length}
use app_gate.Base.Words.{u32_mod}
use app_gate.RustGateway.Config.{CircuitBreakerConfig}
use app_gate.RustGateway.CircuitBreaker.{
  closed, opened, half_open, CircuitBreaker, new, record_failure,
}
use app_gate.RustGateway.CircuitBreaker.Trace.{Call, ask, success, failure, step, run}

-- `budget` is the number of calls that the `failures` counter can still take without wrapping.
pub record IsValid (budget : ℕ) (b : CircuitBreaker) : Type 0 where
  -- A breaker that is not closed has met its threshold, and knows when it last failed.
  pub tripped : b.state ≢ closed → b.config.failure_threshold ≤ b.failures
  pub stamped : b.state ≢ closed → b.last_failure ≢ none
  -- A closed breaker has not.
  pub untripped : b.state ≡ closed → (b.failures < b.config.failure_threshold) ⊎ (b.failures ≡ 0)
  -- The successes of a probing breaker have not reached what closes it.
  pub probing :
      b.state ≡ half_open → (b.success_count < b.config.half_open_max_calls) ⊎ (b.success_count ≡ 0)
  pub counted : b.failures + budget < u32_mod

new-IsValid : (config : CircuitBreakerConfig) (n : ℕ) → n < u32_mod → IsValid n (new config)
unfolding new
new-IsValid config n h = ground arith

step-IsValid : (n : ℕ) (b : CircuitBreaker) (c : Call) → IsValid (suc n) b → IsValid n (step b c)
unfolding step
step-IsValid n b (ask now) h = ground arith
step-IsValid n b success h = ground arith
step-IsValid n b (failure now) h = ground arith

run_from-IsValid :
    (b : CircuitBreaker) (cs : List Call) → IsValid (length cs) b → IsValid 0 (run b cs)
unfolding run
run_from-IsValid b [] h = h
run_from-IsValid b (c ∷ cs) h = run_from-IsValid (step b c) cs (step-IsValid (length cs) b c h)

-- A new breaker satisfies the invariant after any fewer than 2 ^ 32 calls, in any order and at any
-- times: it has met its threshold and has a failure time whenever it is not closed, it is below
-- its threshold (or has no failure) whenever it is closed, and the counter has not wrapped.
pub run-IsValid :
    (config : CircuitBreakerConfig) (cs : List Call)
    → length cs < u32_mod
    → IsValid 0 (run (new config) cs)
run-IsValid config cs h = run_from-IsValid (new config) cs (new-IsValid config (length cs) h)

-- One failure opens a probing breaker again, and starts a new recovery period, while the counter
-- has room.
pub half_open-failure_opens :
    (b : CircuitBreaker) (now : ℕ)
    → IsValid 1 b
    → b.state ≡ half_open
    → ((record_failure now b).state ≡ opened) × ((record_failure now b).last_failure ≡ some now)
unfolding record_failure
half_open-failure_opens b now h e = ground arith
