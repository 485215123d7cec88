-- ===== src/RustGateway/CircuitBreaker/Registry/Current.antt =====
-- The breaker that a key of a registry has, or would get, and what changes it.
use app_gate.Base.{
  zero, suc, ℕ, ◌<◌, String, ◌≡◌, refl, ◌≢◌, sym, ap, ◌∙◌, none, some, List, [], ◌∷◌, ◌==◌, length,
  get_elem?, get_elem?-append_left, get_elem?-append_last, get_elem?-modify_at_self, eq_iff,
  Option-cases, Bool-cases, inl, inr, arith,
}
use app_gate.Base.Assoc.{lookup, lookup-insert}
use app_gate.Base.Result.{unwrap_or}
use app_gate.RustGateway.CircuitBreaker.{CircuitBreaker, new}
use app_gate.RustGateway.CircuitBreaker.Registry.{
  CircuitBreakerRegistry, get, or_insert, get_or_create, update, breaker_of,
}
use app_gate.RustGateway.CircuitBreaker.Registry.Sharing.{
  IsValid, or_insert_present, get_or_create_absent, get_or_create_present, breaker_of_present,
  breaker_of_absent, breaker_of-update, added,
}

-- The breaker of a key, or the one that it would get.
abbrev pub current : String → CircuitBreakerRegistry → CircuitBreaker
current key r = unwrap_or (new r.config) (breaker_of key r)

pub get_or_create_once :
    (key : String) (r : CircuitBreakerRegistry) → get_or_create key r r ≡ or_insert key r
get_or_create_once key r = elim (Option-cases (get key r)) [
  | inl absent ↦ get_or_create_absent key r r absent
  | inr (a, present) ↦
      get_or_create_present key r r a present ∙ sym (or_insert_present key r a present)
]

added_kept :
    (key asked : String) (r : CircuitBreakerRegistry)
    → IsValid r
    → get asked (added key r) ≡ get asked r
    → breaker_of asked (added key r) ≡ breaker_of asked r
unfolding added get
added_kept key asked r v kept = elim (Option-cases (get asked r)) [
  | inl unknown ↦
      breaker_of_absent asked (added key r) (kept ∙ unknown)
      ∙ sym (breaker_of_absent asked r unknown)
  | inr (a, known) ↦
      breaker_of_present asked (added key r) a (kept ∙ known)
      ∙ get_elem?-append_left r.cells (new r.config ∷ []) a (v.bound asked a known)
      ∙ sym (breaker_of_present asked r a known)
]

added-current :
    (key asked : String) (r : CircuitBreakerRegistry)
    → IsValid r
    → lookup key r.breakers ≡ none
    → current asked (added key r) ≡ current asked r
unfolding added get
added-current key asked r v absent =
    let t = added key r in
    let inserted = lookup-insert key asked (length r.cells) r.breakers in
    elim (Bool-cases (key == asked)) [
      | inl same ↦
          let stored : get asked t ≡ some (length r.cells) = inserted ∙ (rw same refl) in
          let e : key ≡ asked = (eq_iff key asked).0 same in
          let unknown : get asked r ≡ none = ap (λ k. lookup k r.breakers) (sym e) ∙ absent in
          ap (unwrap_or (new r.config)) (
            breaker_of_present asked t (length r.cells) stored
            ∙ get_elem?-append_last r.cells (new r.config))
          ∙ ap (unwrap_or (new r.config)) (sym (breaker_of_absent asked r unknown))
      | inr different ↦
          let kept : get asked t ≡ get asked r = inserted ∙ (rw different refl) in
          ap (unwrap_or (new r.config)) (added_kept key asked r v kept)
    ]

pub or_insert-current :
    (key asked : String) (r : CircuitBreakerRegistry)
    → IsValid r
    → current asked (or_insert key r).0 ≡ current asked r
unfolding or_insert get
or_insert-current key asked r v = elim (Option-cases (lookup key r.breakers)) [
  | inl absent ↦ rw (absent, or_insert) (unfold added in added-current key asked r v absent)
  | inr (a, present) ↦ rw (present, or_insert) refl
]

present_cell :
    (xs : List CircuitBreaker) (i : ℕ)
    → i < length xs
    → (b : CircuitBreaker) × (get_elem? xs i ≡ some b)
present_cell [] i h = absurd (omega arith)
present_cell (x ∷ xs) zero h = (x, refl)
present_cell (x ∷ xs) (suc i) h = present_cell xs i (omega arith)

-- The breaker behind an address of a key.
pub held :
    (key : String) (w : CircuitBreakerRegistry) (a : ℕ)
    → IsValid w
    → get key w ≡ some a
    → get_elem? w.cells a ≡ some (current key w)
unfolding get
held key w a v known =
    let (b, here) = present_cell w.cells a (v.bound key a known) in
    here ∙ ap some (ap (unwrap_or (new w.config)) (sym (breaker_of_present key w a known ∙ here)))

pub update-own :
    (key : String) (w : CircuitBreakerRegistry) (a : ℕ) (f : CircuitBreaker → CircuitBreaker)
    → IsValid w
    → get key w ≡ some a
    → current key (update a f w) ≡ f (current key w)
unfolding update get
update-own key w a f v known = ap (unwrap_or (new w.config)) (
    breaker_of_present key (update a f w) a known
    ∙ get_elem?-modify_at_self a f w.cells (current key w) (held key w a v known))

pub update-other :
    (k key : String) (w : CircuitBreakerRegistry) (a : ℕ) (f : CircuitBreaker → CircuitBreaker)
    → IsValid w
    → get k w ≡ some a
    → k ≢ key
    → current key (update a f w) ≡ current key w
unfolding update
update-other k key w a f v known differ =
    ap (unwrap_or (new w.config)) (breaker_of-update w f k key a v known differ)
