-- ===== src/RustGateway/CircuitBreaker/Registry/Tests.antt =====
-- The theorems on the registry at two tasks that both create the breaker of one upstream.
use app_gate.Base.{◌<◌, ◌≡◌, refl, true, false, List, [], ◌∷◌, length, arith, modify_at}
use app_gate.Base.Assoc.{lookup, insert}
use app_gate.RustGateway.Config.{CircuitBreakerConfig, circuit_breaker_of_serde}
use app_gate.Base.Words.{u32_mod}
use app_gate.RustGateway.CircuitBreaker.{new}
use app_gate.RustGateway.CircuitBreaker.Automaton.{passing, verdicts}
use app_gate.RustGateway.CircuitBreaker.Trace.{ask, failure, step}
use app_gate.RustGateway.CircuitBreaker.Registry.Keyed.{
  Use, found, called, call_at, use_registry, answers_for, calls_for,
}
use app_gate.RustGateway.CircuitBreaker.Registry.Answers.{answers_for-verdicts}
use app_gate.RustGateway.CircuitBreaker.Registry.{
  CircuitBreakerRegistry, new_registry, get, or_insert, get_or_create, update,
}
use app_gate.RustGateway.CircuitBreaker.Registry.Sharing.{
  Reach, here, next, create, get_or_create_shared,
}

abbrev empty : CircuitBreakerRegistry
empty = new_registry circuit_breaker_of_serde

abbrev one : CircuitBreakerRegistry
one = (or_insert "openai" empty).0

-- Both tasks saw the registry empty; the second takes the write lock after the first.
abbrev shared : CircuitBreakerRegistry
shared = (get_or_create "meta" empty one).0

one-Reach : Reach empty one
one-Reach = next here (create "openai" empty)

shared-Reach : Reach empty shared
unfolding get_or_create new_registry lookup
shared-Reach = next one-Reach (create "meta" one)

get_or_create_shared_example :
    get_or_create "meta" empty shared ≡ (shared, (get_or_create "meta" empty one).1)
get_or_create_shared_example =
    get_or_create_shared "meta" empty one empty shared one-Reach here shared-Reach

-- One failure of each of two upstreams.
abbrev uses : List Use
uses =
    called "openai" (failure 10)
    ∷ found "meta"
    ∷ called "meta" (ask 15)
    ∷ called "openai" (ask 20)
    ∷ []

abbrev quick : CircuitBreakerConfig
quick = record { failure_threshold = 1; recovery_timeout_ms = 1; half_open_max_calls = 2 }

told_apart :
    (answers_for "openai" (new_registry quick) uses ≡ false ∷ [])
    × (answers_for "meta" (new_registry quick) uses ≡ true ∷ [])
unfolding answers_for use_registry call_at get_or_create get or_insert update new_registry lookup
    insert modify_at step new
told_apart = (refl, refl)

short : length (calls_for "openai" uses) < u32_mod
unfolding calls_for
short = omega arith

answers_for-verdicts_example :
    answers_for "openai" (new_registry quick) uses
    ≡ verdicts quick (passing 0) (calls_for "openai" uses)
answers_for-verdicts_example = answers_for-verdicts quick "openai" uses short
