-- ===== src/RustGateway/CircuitBreaker/Registry/Keyed.antt =====
-- The calls of many tasks on the breakers of one registry.
use app_gate.Base.{
  ℕ, String, Bool, Option, none, some, List, [], ◌∷◌, ◌==◌, get_elem?, if◌then◌else◌,
}
use app_gate.RustGateway.CircuitBreaker.{CircuitBreaker}
use app_gate.RustGateway.CircuitBreaker.Registry.{CircuitBreakerRegistry, get_or_create, update}
use app_gate.RustGateway.CircuitBreaker.Trace.{Call, step, answer}

-- What tasks do: ask for the breaker of a key, and call a method on it. A call of `get_or_create`
-- counts at its last lock: `Sharing` shows that what came between its locks makes no difference.
pub data Use : Type 0 where
  found : String → Use
  called : String → Call → Use

-- A method on the breaker that `get_or_create` returned.
unfoldable pub call_at : Call → CircuitBreakerRegistry × ℕ → CircuitBreakerRegistry
unfolding update
call_at c (w, address) = update address (λ b. step b c) w

unfoldable pub use_registry : CircuitBreakerRegistry → Use → CircuitBreakerRegistry
unfolding get_or_create call_at
use_registry r (found key) = (get_or_create key r r).0
use_registry r (called key c) = call_at c (get_or_create key r r)

-- What a call tells the one that makes it.
abbrev pub told : Option CircuitBreaker → Call → List Bool → List Bool
told none c rest = rest
told (some b) c rest = answer b c rest

abbrev pub told_at : Call → CircuitBreakerRegistry × ℕ → List Bool → List Bool
told_at c (w, address) rest = told (get_elem? w.cells address) c rest

-- What the users of one key are told, in order.
unfoldable pub answers_for : String → CircuitBreakerRegistry → List Use → List Bool
unfolding use_registry
answers_for key r [] = []
answers_for key r (found other ∷ us) = answers_for key (use_registry r (found other)) us
answers_for key r (called other c ∷ us) =
    let rest = answers_for key (use_registry r (called other c)) us in
    if other == key then told_at c (get_or_create other r r) rest else rest

-- The calls on one key.
unfoldable pub calls_for : String → List Use → List Call
calls_for key [] = []
calls_for key (found other ∷ us) = calls_for key us
calls_for key (called other c ∷ us) =
    let rest = calls_for key us in if other == key then c ∷ rest else rest
