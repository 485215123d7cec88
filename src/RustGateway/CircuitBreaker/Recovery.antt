-- ===== src/RustGateway/CircuitBreaker/Recovery.antt =====
-- When a breaker opens, how long it stays open, and how it closes again.
use app_gate.Base.{
  ℕ, zero, suc, ◌+◌, ◌≤◌, ◌<◌, ◌≡◌, refl, true, false, some, List, [], ◌∷◌, map, arith, length,
  replicate, All, leb, ltb, ap, ◌∙◌, if◌then◌else◌,
}
use native.Mathlib.Nat.{add-zero, zero-add, add-suc, suc-add}
use app_gate.Base.Words.{u32_mod}
use app_gate.RustGateway.Config.{CircuitBreakerConfig}
use app_gate.RustGateway.CircuitBreaker.{
  CircuitState, closed, opened, half_open, CircuitBreaker, new, from_millis, allow,
}
use app_gate.RustGateway.CircuitBreaker.Trace.{Call, ask, success, failure, step, run, answers}

-- The state that `failures` failures put a closed breaker in.
abbrev pub state_after : ℕ → ℕ → CircuitState
state_after threshold failures = if leb threshold failures then opened else closed

step-failure :
    (b : CircuitBreaker) (t : ℕ)
    → b.state ≡ state_after b.config.failure_threshold b.failures
    → b.failures + 1 < u32_mod
    → let b' = step b (failure t) in
      (b'.config ≡ b.config)
      × (b'.failures ≡ suc b.failures)
      × (b'.state ≡ state_after b.config.failure_threshold (suc b.failures))
unfolding step
step-failure b t e h = (ground arith, ground arith, ground arith)

run-failures :
    (b : CircuitBreaker) (threshold k : ℕ) (ts : List ℕ)
    → b.config.failure_threshold ≡ threshold
    → b.failures ≡ k
    → b.state ≡ state_after threshold k
    → k + length ts < u32_mod
    → (run b (map failure ts)).state ≡ state_after threshold (k + length ts)
unfolding run
run-failures b threshold k [] c f e h = rw add-zero e
run-failures b threshold k (t ∷ ts) c f e h =
    let (c', f', e') = step-failure b t (cc) (omega arith) in
    rw (add-suc, ← suc-add)
      (run-failures (step b (failure t)) threshold (suc k) ts (cc) (cc) (cc) (omega arith))

-- A new breaker with a positive threshold is open after a run of failures exactly when the run is
-- as long as the threshold, and closed before that.
pub new-trips :
    (config : CircuitBreakerConfig) (ts : List ℕ)
    → 0 < config.failure_threshold
    → length ts < u32_mod
    → (run (new config) (map failure ts)).state ≡ state_after config.failure_threshold (length ts)
unfolding new
new-trips config ts h k =
    run-failures (new config) config.failure_threshold 0 ts refl refl (ground arith) (omega arith)
    ∙ ap (state_after config.failure_threshold) (zero-add (length ts))

-- A call that is no failure, made no later than `until`.
abbrev pub IsQuiet : ℕ → Call → Type 0
IsQuiet until (ask now) = now ≤ until
IsQuiet until success = Unit
IsQuiet until (failure now) = ⊥

step-opened :
    (b : CircuitBreaker) (t : ℕ) (c : Call)
    → b.state ≡ opened
    → b.last_failure ≡ some t
    → IsQuiet (t + from_millis b.config.recovery_timeout_ms) c
    → step b c ≡ b
unfolding step
step-opened b t (ask now) e l q = ground arith
step-opened b t success e l q = ground arith
step-opened b t (failure now) e l q = elim q [ ]

allow-opened :
    (b : CircuitBreaker) (t now : ℕ)
    → b.state ≡ opened
    → b.last_failure ≡ some t
    → now ≤ t + from_millis b.config.recovery_timeout_ms
    → (allow now b).1 ≡ false
unfolding allow
allow-opened b t now e l q = ground arith

-- Until the recovery time has passed since its last failure, and as long as no other is recorded,
-- an open breaker refuses every call and does not change, whatever successes of earlier calls are
-- recorded.
pub cooldown :
    (b : CircuitBreaker) (t : ℕ) (cs : List Call)
    → b.state ≡ opened
    → b.last_failure ≡ some t
    → All (IsQuiet (t + from_millis b.config.recovery_timeout_ms)) cs
    → (run b cs ≡ b) × All (λ a. a ≡ false) (answers b cs)
unfolding run answers
cooldown b t [] e l q = (refl, tt)
cooldown b t (ask now ∷ cs) e l (q, qs) =
    let (same, refused) = cooldown b t cs e l qs in
    rw (step-opened b t (ask now) e l q) (same, (allow-opened b t now e l q, refused))
cooldown b t (success ∷ cs) e l (q, qs) =
    rw (step-opened b t success e l q) (cooldown b t cs e l qs)
cooldown b t (failure now ∷ cs) e l (q, qs) = elim q [ ]

step-probe :
    (b : CircuitBreaker)
    → b.state ≡ half_open
    → b.success_count + 1 < b.config.half_open_max_calls
    → b.config.half_open_max_calls < u32_mod
    → step b success ≡ record b { success_count = b.success_count + 1 }
unfolding step
step-probe b e p h = ground arith

step-probe_last :
    (b : CircuitBreaker)
    → b.state ≡ half_open
    → b.success_count + 1 ≡ b.config.half_open_max_calls
    → b.config.half_open_max_calls < u32_mod
    → step b success ≡ record b { state = closed; failures = 0; success_count = 0 }
unfolding step
step-probe_last b e p h = ground arith

half_open-successes :
    (b : CircuitBreaker) (k : ℕ)
    → b.state ≡ half_open
    → 0 < k
    → b.success_count + k ≡ b.config.half_open_max_calls
    → b.config.half_open_max_calls < u32_mod
    → run b (replicate k success) ≡ record b { state = closed; failures = 0; success_count = 0 }
unfolding run replicate
half_open-successes b zero e p s h = absurd (omega arith)
half_open-successes b (suc zero) e p s h = step-probe_last b e s h
half_open-successes b (suc (suc k)) e p s h =
    ap (λ x. run x (replicate (suc k) success)) (step-probe b e (omega arith) h)
    ∙ half_open-successes (record b { success_count = b.success_count + 1 }) (suc k) e (omega arith)
        (omega arith) h

step-wake :
    (b : CircuitBreaker) (t now : ℕ)
    → b.state ≡ opened
    → b.last_failure ≡ some t
    → t + from_millis b.config.recovery_timeout_ms < now
    → step b (ask now) ≡ record b { state = half_open; success_count = 0 }
unfolding step
step-wake b t now e l h = ground arith

allow-wake :
    (b : CircuitBreaker) (t now : ℕ)
    → b.state ≡ opened
    → b.last_failure ≡ some t
    → t + from_millis b.config.recovery_timeout_ms < now
    → 0 < b.config.half_open_max_calls
    → (allow now b).1 ≡ true
unfolding allow
allow-wake b t now e l h p = ground arith

-- Once the recovery time has passed since the last failure, an open breaker whose
-- `half_open_max_calls` is positive and below 2 ^ 32 lets a call through, and that call and as many
-- successes as `half_open_max_calls` close it, with its counters at zero.
pub opened-recovers :
    (b : CircuitBreaker) (t now : ℕ)
    → b.state ≡ opened
    → b.last_failure ≡ some t
    → t + from_millis b.config.recovery_timeout_ms < now
    → 0 < b.config.half_open_max_calls
    → b.config.half_open_max_calls < u32_mod
    → ((allow now b).1 ≡ true)
      × (run b (ask now ∷ replicate b.config.half_open_max_calls success)
          ≡ record b { state = closed; failures = 0; success_count = 0 })
unfolding run
opened-recovers b t now e l late p h =
    let max = b.config.half_open_max_calls in
    (
      allow-wake b t now e l late p,
      ap (λ x. run x (replicate max success)) (step-wake b t now e l late)
          ∙ half_open-successes (record b { state = half_open; success_count = 0 }) max refl p
              (zero-add max) h,
    )

step-probing : (b : CircuitBreaker) (now : ℕ) → b.state ≡ half_open → step b (ask now) ≡ b
unfolding step
step-probing b now e = ground arith

allow-probing :
    (b : CircuitBreaker) (now : ℕ)
    → b.state ≡ half_open
    → (allow now b).1 ≡ ltb b.success_count b.config.half_open_max_calls
unfolding allow
allow-probing b now e = ground arith

-- A probing breaker counts successes and not calls: it does not change by being asked, and until
-- a result is recorded it gives every caller the same answer, however many there are.
pub half_open-answers :
    (b : CircuitBreaker) (ts : List ℕ)
    → b.state ≡ half_open
    → (run b (map ask ts) ≡ b)
      × All (λ a. a ≡ ltb b.success_count b.config.half_open_max_calls) (answers b (map ask ts))
unfolding run answers
half_open-answers b [] e = (refl, tt)
half_open-answers b (t ∷ ts) e =
    let (same, told) = half_open-answers b ts e in
    (
      ap (λ x. run x (map ask ts)) (step-probing b t e) ∙ same,
      (allow-probing b t e, rw (step-probing b t e) told),
    )
