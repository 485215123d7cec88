-- ===== src/RustGateway/CircuitBreaker/Tests.antt =====
-- Runs of the breaker, and its theorems at concrete inputs.
use app_gate.Base.{All, ◌≡◌, refl, false, true, some, List, [], ◌∷◌, arith, replicate}
use app_gate.RustGateway.Config.{CircuitBreakerConfig}
use app_gate.RustGateway.CircuitBreaker.{allow, closed, opened, CircuitBreaker, new}
use app_gate.RustGateway.CircuitBreaker.Trace.{Call, ask, success, failure, step, run, answers}
use app_gate.RustGateway.CircuitBreaker.Automaton.{passing, verdicts}
use app_gate.RustGateway.CircuitBreaker.Refinement.{answers-verdicts}
use app_gate.RustGateway.CircuitBreaker.Recovery.{cooldown, opened-recovers}

-- Two failures open it; it recovers after 1 ms and two successes.
abbrev small : CircuitBreakerConfig
small = record { failure_threshold = 2; recovery_timeout_ms = 1; half_open_max_calls = 2 }

abbrev story : List Call
story = failure 10 ∷ failure 20 ∷ ask 1000020 ∷ ask 1000021 ∷ ask 1000022 ∷ success ∷ []

story_told : answers (new small) story ≡ false ∷ true ∷ true ∷ []
unfolding answers new step
story_told = refl

answers-verdicts_example : answers (new small) story ≡ verdicts small (passing 0) story
answers-verdicts_example = answers-verdicts small story (omega arith)

abbrev tripped : CircuitBreaker
tripped = record {
  state = opened;
  failures = 2;
  last_failure = some 20;
  success_count = 0;
  config = small;
}

opened-recovers_example :
    ((allow 1000021 tripped).1 ≡ true)
    × (run tripped (ask 1000021 ∷ replicate 2 success)
        ≡ record tripped { state = closed; failures = 0; success_count = 0 })
opened-recovers_example =
    opened-recovers tripped 20 1000021 refl refl (omega arith) (omega arith) (omega arith)

cooldown_example :
    (run tripped (ask 25 ∷ success ∷ []) ≡ tripped)
    × All (λ a. a ≡ false) (answers tripped (ask 25 ∷ success ∷ []))
cooldown_example = cooldown tripped 20 (ask 25 ∷ success ∷ []) refl refl (omega arith)
