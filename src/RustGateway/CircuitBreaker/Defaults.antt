-- ===== src/RustGateway/CircuitBreaker/Defaults.antt =====
-- How a breaker behaves under the fallback configuration of rust-gateway/src/config.rs, whose
-- breaker section is the derived `Default` and not what the serde functions give.
use app_gate.Base.{ℕ, ◌<◌, some, ◌≡◌, refl, false, List, [], ◌∷◌, map, arith, All}
use app_gate.Base.Result.{err}
use app_gate.RustGateway.Config.{circuit_breaker_of_serde, default_circuit_breaker, from_env}
use app_gate.RustGateway.CircuitBreaker.{closed, opened, half_open, CircuitBreaker, new}
use app_gate.RustGateway.CircuitBreaker.Trace.{ask, failure, step, run, answers}
use app_gate.RustGateway.CircuitBreaker.Recovery.{half_open-answers}

fails : (t : ℕ) → (step (new default_circuit_breaker) (failure t)).state ≡ opened
unfolding new step
fails t = refl

holds : (t : ℕ) → (step (new circuit_breaker_of_serde) (failure t)).state ≡ closed
unfolding new step
holds t = refl

-- A breaker of the fallback configuration that has failed once, at `t`, and is being probed.
abbrev probing : ℕ → CircuitBreaker
probing t = record {
  state = half_open;
  failures = 1;
  last_failure = some t;
  success_count = 0;
  config = default_circuit_breaker;
}

first_probe :
    (t now : ℕ)
    → t < now
    → step (step (new default_circuit_breaker) (failure t)) (ask now) ≡ probing t
unfolding new step
first_probe t now h = ground arith

-- When the environment cannot be parsed, one failure opens a new breaker, and the next call after
-- it probes; but that probe is the only call that passes until a result is recorded. With the
-- values of the serde functions the same failure leaves a new breaker closed.
pub from_env_failed-trips {ℓ} :
    {E : Type ℓ} (e : E) (t now : ℕ) (ts : List ℕ)
    → t < now
    → let b = new (from_env (err e)).circuit_breaker in
      let after = run b (failure t ∷ ask now ∷ []) in
      ((step b (failure t)).state ≡ opened)
      × (after.state ≡ half_open)
      × (run after (map ask ts) ≡ after)
      × All (λ a. a ≡ false) (answers after (map ask ts))
      × ((step (new circuit_breaker_of_serde) (failure t)).state ≡ closed)
unfolding from_env run
from_env_failed-trips e t now ts h =
    let (same, told) = half_open-answers (probing t) ts refl in
    rw (first_probe t now h) (fails t, refl, same, told, holds t)
