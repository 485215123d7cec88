-- ===== src/RustGateway/CircuitBreaker/Automaton.antt =====
-- What rust-gateway/src/circuit_breaker.rs promises its users: an automaton of three states, each
-- with what that state needs to know and nothing more. Its counters do not wrap.
use app_gate.Base.{ℕ, ◌+◌, ◌-◌, Bool, true, List, [], ◌∷◌, ltb, leb, if◌then◌else◌}
use app_gate.RustGateway.Config.{CircuitBreakerConfig}
use app_gate.RustGateway.CircuitBreaker.{from_millis}
use app_gate.RustGateway.CircuitBreaker.Trace.{Call, ask, success, failure}

-- Letting everything pass after some failures, refusing since an instant, or trying the upstream
-- after some successes.
pub data Automaton : Type 0 where
  passing : ℕ → Automaton
  refusing : ℕ → Automaton
  trying : ℕ → Automaton

module _ (config : CircuitBreakerConfig) where
  -- May a call of this instant pass?
  unfoldable pub passes : ℕ → Automaton → Bool
  passes now (passing n) = true
  passes now (refusing since) = ltb (from_millis config.recovery_timeout_ms) (now - since)
  passes now (trying n) = ltb n config.half_open_max_calls

  unfoldable pub asked : ℕ → Automaton → Automaton
  asked now (passing n) = passing n
  asked now (refusing since) =
      if ltb (from_millis config.recovery_timeout_ms) (now - since)
      then trying 0
      else refusing since
  asked now (trying n) = trying n

  unfoldable pub succeeded : Automaton → Automaton
  succeeded (passing n) = passing (n - 1)
  succeeded (refusing since) = refusing since
  succeeded (trying n) =
      if leb config.half_open_max_calls (n + 1) then passing 0 else trying (n + 1)

  unfoldable pub failed : ℕ → Automaton → Automaton
  failed now (passing n) =
      if leb config.failure_threshold (n + 1) then refusing now else passing (n + 1)
  failed now (refusing since) = refusing now
  failed now (trying n) = refusing now

  unfoldable pub move : Automaton → Call → Automaton
  unfolding asked succeeded failed
  move a (ask now) = asked now a
  move a success = succeeded a
  move a (failure now) = failed now a

  abbrev pub replies : Automaton → Call → List Bool → List Bool
  replies a (ask now) rest = passes now a ∷ rest
  replies a success rest = rest
  replies a (failure now) rest = rest

  -- What the automaton tells its users, in order.
  unfoldable pub verdicts : Automaton → List Call → List Bool
  verdicts a [] = []
  verdicts a (c ∷ cs) = replies a c (verdicts (move a c) cs)
