-- ===== src/RustGateway/CircuitBreaker/Registry/Sharing.antt =====
-- The registry under several tasks: which breakers they share.
use app_gate.Base.{
  ℕ, ◌<◌, String, ◌≡◌, refl, ◌≢◌, sym, ap, ◌∙◌, none, some, [], ◌∷◌, ◌++◌, arith, length, get_elem?,
  length-modify_at, length-append, get_elem?-modify_at_ne, eq_iff, Option-cases, inl, inr,
}
use app_gate.Base.Assoc.{lookup, insert, lookup-insert}
use app_gate.RustGateway.Config.{CircuitBreakerConfig}
use app_gate.RustGateway.CircuitBreaker.{CircuitBreaker, new}
use app_gate.RustGateway.CircuitBreaker.Registry.{
  CircuitBreakerRegistry, new_registry, get, or_insert, get_or_create, update, breaker_of,
}

-- What one task does while it holds a lock.
pub data Step : CircuitBreakerRegistry → CircuitBreakerRegistry → Type 0 where
  create : (key : String) (r : CircuitBreakerRegistry) → Step r (or_insert key r).0
  touch :
      (address : ℕ) (f : CircuitBreaker → CircuitBreaker) (r : CircuitBreakerRegistry)
      → Step r (update address f r)

pub data Reach (r : CircuitBreakerRegistry) : CircuitBreakerRegistry → Type 0 where
  here : Reach r r
  next : {s t : CircuitBreakerRegistry} → Reach r s → Step s t → Reach r t

-- Every key's address is that of a cell, and of no other key's.
pub record IsValid (r : CircuitBreakerRegistry) : Type 0 where
  pub bound : (k : String) (a : ℕ) → lookup k r.breakers ≡ some a → a < length r.cells
  pub distinct :
      (k j : String) (a : ℕ) → lookup k r.breakers ≡ some a → lookup j r.breakers ≡ some a → k ≡ j

pub new_registry-IsValid : (config : CircuitBreakerConfig) → IsValid (new_registry config)
unfolding new_registry lookup
new_registry-IsValid config = record { bound = λ k a e. cc; distinct = λ k j a e f. cc }

-- The registry with a new cell for a key that had none.
unfoldable pub added : String → CircuitBreakerRegistry → CircuitBreakerRegistry
added key r = record r {
  breakers = insert key (length r.cells) r.breakers;
  cells = r.cells ++ new r.config ∷ [];
}

added-IsValid : (key : String) (r : CircuitBreakerRegistry) → IsValid r → IsValid (added key r)
unfolding added
added-IsValid key r v = record {
  bound = λ k a e. ground (
    arith,
    lookup-insert key k (length r.cells) r.breakers,
    length-append r.cells (new r.config ∷ []),
    v.bound k a,
  );
  distinct = λ k j a e f. ground (
    arith,
    lookup-insert key k (length r.cells) r.breakers,
    lookup-insert key j (length r.cells) r.breakers,
    eq_iff key k,
    eq_iff key j,
    v.bound k a,
    v.bound j a,
    v.distinct k j a,
  );
}

pub or_insert-IsValid :
    (key : String) (r : CircuitBreakerRegistry) → IsValid r → IsValid (or_insert key r).0
unfolding or_insert
or_insert-IsValid key r v = elim (Option-cases (lookup key r.breakers)) [
  | inl absent ↦ rw (absent, or_insert) (unfold added in added-IsValid key r v)
  | inr (a, present) ↦ rw (present, or_insert) v
]

pub update-IsValid :
    (address : ℕ) (f : CircuitBreaker → CircuitBreaker) (r : CircuitBreakerRegistry)
    → IsValid r
    → IsValid (update address f r)
unfolding update
update-IsValid address f r v = record {
  bound = λ k a e. rw (length-modify_at address f r.cells) (v.bound k a e);
  distinct = v.distinct;
}

Step-IsValid : {r s : CircuitBreakerRegistry} → Step r s → IsValid r → IsValid s
Step-IsValid (create key r) v = or_insert-IsValid key r v
Step-IsValid (touch address f r) v = update-IsValid address f r v

-- However tasks interleave, the keys of a registry keep distinct breakers of their own.
pub Reach-IsValid :
    (config : CircuitBreakerConfig) {r : CircuitBreakerRegistry}
    → Reach (new_registry config) r
    → IsValid r
Reach-IsValid config here = new_registry-IsValid config
Reach-IsValid config (next reach step) = Step-IsValid step (Reach-IsValid config reach)

pub get-or_insert :
    (key : String) (r : CircuitBreakerRegistry)
    → get key (or_insert key r).0 ≡ some (or_insert key r).1
unfolding get or_insert
get-or_insert key r =
    ground (arith, lookup-insert key key (length r.cells) r.breakers, eq_iff key key)

-- An address that a key has once been given stays its address.
get-Step :
    {r s : CircuitBreakerRegistry} (key : String) (a : ℕ)
    → Step r s
    → get key r ≡ some a
    → get key s ≡ some a
unfolding get update or_insert
get-Step key a (create k r) h =
    ground (arith, lookup-insert k key (length r.cells) r.breakers, eq_iff k key)
get-Step key a (touch address f r) h = h

get-Reach :
    {r s : CircuitBreakerRegistry} (key : String) (a : ℕ)
    → get key r ≡ some a
    → Reach r s
    → get key s ≡ some a
get-Reach key a h here = h
get-Reach key a h (next reach step) = get-Step key a step (get-Reach key a h reach)

module _ (key : String) (r w : CircuitBreakerRegistry) where
  pub get_or_create_absent : get key r ≡ none → get_or_create key r w ≡ or_insert key w
  unfolding get_or_create
  get_or_create_absent h = rw (h, get_or_create)

  pub get_or_create_present : (a : ℕ) → get key r ≡ some a → get_or_create key r w ≡ (w, a)
  unfolding get_or_create
  get_or_create_present a h = rw (h, get_or_create)

  -- What `get_or_create` returns is the key's address from then on.
  get-get_or_create : Reach r w → get key (get_or_create key r w).0 ≡ some (get_or_create key r w).1
  get-get_or_create reach = elim (Option-cases (get key r)) [
    | inl absent ↦ rw (get_or_create_absent absent) (get-or_insert key w)
    | inr (a, present) ↦ rw (get_or_create_present a present) (get-Reach key a present reach)
  ]

pub or_insert_present :
    (key : String) (w : CircuitBreakerRegistry) (a : ℕ)
    → get key w ≡ some a
    → or_insert key w ≡ (w, a)
unfolding get or_insert
or_insert_present key w a h = rw (h, or_insert)

-- Two tasks that ask for one key get one breaker: whatever other tasks did between the first
-- task's locks (`r` to `w`), between the second task's (`r'` to `w'`), and since the first call.
pub get_or_create_shared :
    (key : String) (r w r' w' : CircuitBreakerRegistry)
    → Reach r w
    → Reach (get_or_create key r w).0 w'
    → Reach r' w'
    → get_or_create key r' w' ≡ (w', (get_or_create key r w).1)
get_or_create_shared key r w r' w' first since second =
    let address = (get_or_create key r w).1 in
    let stored : get key w' ≡ some address =
      get-Reach key address (get-get_or_create key r w first) since in
    elim (Option-cases (get key r')) [
      | inl absent ↦ get_or_create_absent key r' w' absent ∙ or_insert_present key w' address stored
      | inr (a, present) ↦
          let same : a ≡ address = cc (get-Reach key a present second) in
          get_or_create_present key r' w' a present ∙ ap (λ x. (w', x)) same
    ]

pub breaker_of_present :
    (key : String) (r : CircuitBreakerRegistry) (a : ℕ)
    → get key r ≡ some a
    → breaker_of key r ≡ get_elem? r.cells a
unfolding breaker_of
breaker_of_present key r a h = rw (h, breaker_of)

pub breaker_of_absent :
    (key : String) (r : CircuitBreakerRegistry) → get key r ≡ none → breaker_of key r ≡ none
unfolding breaker_of
breaker_of_absent key r h = rw (h, breaker_of)

get-update :
    (a : ℕ) (f : CircuitBreaker → CircuitBreaker) (key : String) (r : CircuitBreakerRegistry)
    → get key (update a f r) ≡ get key r
unfolding get update
get-update a f key r = refl

cells-update :
    (a b : ℕ) (f : CircuitBreaker → CircuitBreaker) (r : CircuitBreakerRegistry)
    → a ≢ b
    → get_elem? (update a f r).cells b ≡ get_elem? r.cells b
unfolding update
cells-update a b f r h = get_elem?-modify_at_ne a b f r.cells h

distinct_addresses :
    (r : CircuitBreakerRegistry) (k j : String) (a b : ℕ)
    → IsValid r
    → get k r ≡ some a
    → get j r ≡ some b
    → k ≢ j
    → a ≢ b
unfolding get
distinct_addresses r k j a b v e g h same = h (v.distinct k j b (e ∙ ap some same) g)

-- A method on the breaker of one key leaves the breaker of every other key as it was.
pub breaker_of-update :
    (r : CircuitBreakerRegistry) (f : CircuitBreaker → CircuitBreaker) (k j : String) (a : ℕ)
    → IsValid r
    → get k r ≡ some a
    → k ≢ j
    → breaker_of j (update a f r) ≡ breaker_of j r
breaker_of-update r f k j a v e h = elim (Option-cases (get j r)) [
  | inl absent ↦
      breaker_of_absent j (update a f r) (get-update a f j r ∙ absent)
      ∙ sym (breaker_of_absent j r absent)
  | inr (b, present) ↦
      breaker_of_present j (update a f r) b (get-update a f j r ∙ present)
      ∙ cells-update a b f r (distinct_addresses r k j a b v e present h)
      ∙ sym (breaker_of_present j r b present)
]
