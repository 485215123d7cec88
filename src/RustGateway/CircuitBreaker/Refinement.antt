-- ===== src/RustGateway/CircuitBreaker/Refinement.antt =====
-- A breaker answers as its automaton does.
use app_gate.Base.{ℕ, suc, ◌+◌, ◌≤◌, ◌<◌, ◌≡◌, refl, some, List, [], ◌∷◌, arith, length}
use app_gate.Base.Words.{u32_mod}
use app_gate.RustGateway.Config.{CircuitBreakerConfig}
use app_gate.RustGateway.CircuitBreaker.{closed, opened, half_open, CircuitBreaker, new, allow}
use app_gate.RustGateway.CircuitBreaker.Trace.{Call, ask, success, failure, step, answers}
use app_gate.RustGateway.CircuitBreaker.Automaton.{
  Automaton, passing, refusing, trying, passes, move, verdicts,
}

-- The counters and the stamp that an automaton's state stands for. A breaker that is not closed
-- has met its threshold, and its counter has room for `budget` more failures.
abbrev Shows : CircuitBreakerConfig → Automaton → CircuitBreaker → Type 0
Shows config (passing n) b = (b.state ≡ closed) × (b.failures ≡ n)
Shows config (refusing since) b =
    (b.state ≡ opened) × (b.last_failure ≡ some since) × (config.failure_threshold ≤ b.failures)
Shows config (trying n) b =
    (b.state ≡ half_open) × (b.success_count ≡ n) × (config.failure_threshold ≤ b.failures)

record Simulates (config : CircuitBreakerConfig) (budget : ℕ) (a : Automaton) (b : CircuitBreaker)
    : Type 0 where
  settings : b.config ≡ config
  shows : Shows config a b
  room : b.failures + budget < u32_mod
  probes : b.success_count + budget < u32_mod

new-Simulates :
    (config : CircuitBreakerConfig) (n : ℕ)
    → n < u32_mod
    → Simulates config n (passing 0) (new config)
unfolding new
new-Simulates config n h = ground arith

allow-passes :
    (config : CircuitBreakerConfig) (n now : ℕ) (a : Automaton) (b : CircuitBreaker)
    → Simulates config n a b
    → (allow now b).1 ≡ passes config now a
unfolding allow passes
allow-passes config n now (passing m) b h = ground arith
allow-passes config n now (refusing since) b h = ground arith
allow-passes config n now (trying m) b h = ground arith

step-Simulates :
    (config : CircuitBreakerConfig) (n : ℕ) (a : Automaton) (b : CircuitBreaker) (c : Call)
    → Simulates config (suc n) a b
    → Simulates config n (move config a c) (step b c)
unfolding step move
step-Simulates config n (passing m) b (ask now) h = ground arith
step-Simulates config n (refusing since) b (ask now) h = ground arith
step-Simulates config n (trying m) b (ask now) h = ground arith
step-Simulates config n (passing m) b success h = ground arith
step-Simulates config n (refusing since) b success h = ground arith
step-Simulates config n (trying m) b success h = ground arith
step-Simulates config n (passing m) b (failure now) h = ground arith
step-Simulates config n (refusing since) b (failure now) h = ground arith
step-Simulates config n (trying m) b (failure now) h = ground arith

answers_from-verdicts :
    (config : CircuitBreakerConfig) (a : Automaton) (b : CircuitBreaker) (cs : List Call)
    → Simulates config (length cs) a b
    → answers b cs ≡ verdicts config a cs
unfolding answers verdicts
answers_from-verdicts config a b [] h = refl
answers_from-verdicts config a b (ask now ∷ cs) h = ground (
  arith,
  allow-passes config (suc (length cs)) now a b h,
  answers_from-verdicts config (move config a (ask now)) (step b (ask now)) cs
      (step-Simulates config (length cs) a b (ask now) h),
)
answers_from-verdicts config a b (success ∷ cs) h =
    answers_from-verdicts config (move config a success) (step b success) cs
      (step-Simulates config (length cs) a b success h)
answers_from-verdicts config a b (failure now ∷ cs) h =
    answers_from-verdicts config (move config a (failure now)) (step b (failure now)) cs
      (step-Simulates config (length cs) a b (failure now) h)

-- Through any fewer than 2 ^ 32 calls, in any order and at any times, a new breaker gives the
-- answers of the automaton that starts out passing with no failure.
pub answers-verdicts :
    (config : CircuitBreakerConfig) (cs : List Call)
    → length cs < u32_mod
    → answers (new config) cs ≡ verdicts config (passing 0) cs
answers-verdicts config cs h =
    answers_from-verdicts config (passing 0) (new config) cs (new-Simulates config (length cs) h)
