-- ===== src/RustGateway/CircuitBreaker/Registry.antt =====
-- rust-gateway/src/circuit_breaker.rs: the registry. An `Arc<RwLock<CircuitBreaker>>` is an
-- address in a list of cells, so that two holders of one `Arc` see one breaker. `get_or_create`
-- takes the read lock and then the write lock: the registry that it finds under the second may
-- have been changed by other tasks.
pub mod Sharing
pub mod Keyed
pub mod Current
pub mod Answers
mod Tests
use app_gate.Base.{ℕ, String, Option, none, some, List, [], ◌∷◌, ◌++◌, length, get_elem?, modify_at}
use app_gate.Base.Assoc.{lookup, insert}
use app_gate.RustGateway.Config.{CircuitBreakerConfig}
use app_gate.RustGateway.CircuitBreaker.{CircuitBreaker, new}

pub record CircuitBreakerRegistry : Type 0 where
  pub breakers : List (String × ℕ)
  pub cells : List CircuitBreaker
  pub config : CircuitBreakerConfig

unfoldable pub new_registry : CircuitBreakerConfig → CircuitBreakerRegistry
new_registry config = record { breakers = []; cells = []; config = config }

unfoldable pub get : String → CircuitBreakerRegistry → Option ℕ
get key r = lookup key r.breakers

-- `entry(key).or_insert_with(…).clone()`, under the write lock.
unfoldable pub or_insert : String → CircuitBreakerRegistry → CircuitBreakerRegistry × ℕ
or_insert key w = elim (lookup key w.breakers) [
  | some address ↦ (w, address)
  | none ↦ (
    record w {
      breakers = insert key (length w.cells) w.breakers;
      cells = w.cells ++ new w.config ∷ [];
    },
    length w.cells,
  )
]

-- `r` is the registry under the read lock, `w` the registry under the write lock.
unfoldable pub get_or_create :
    String → CircuitBreakerRegistry → CircuitBreakerRegistry → CircuitBreakerRegistry × ℕ
unfolding get or_insert
get_or_create key r w = elim (get key r) [ some address ↦ (w, address) | none ↦ or_insert key w ]

-- A method on the breaker behind an `Arc`, under its own lock.
unfoldable pub update :
    ℕ → (CircuitBreaker → CircuitBreaker) → CircuitBreakerRegistry → CircuitBreakerRegistry
update address f r = record r { cells = modify_at address f r.cells }

-- The breaker of a key.
unfoldable pub breaker_of : String → CircuitBreakerRegistry → Option CircuitBreaker
unfolding get
breaker_of key r = elim (get key r) [ none ↦ none | some address ↦ get_elem? r.cells address ]
