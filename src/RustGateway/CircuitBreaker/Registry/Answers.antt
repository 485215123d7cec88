-- ===== src/RustGateway/CircuitBreaker/Registry/Answers.antt =====
-- What the users of one key of a registry are told.
use mathlib.Core.Bool.{false≢true}
use mathlib.Core.Path.{subst}
use app_gate.Base.{
  ◌<◌, String, ◌≡◌, refl, ◌≢◌, sym, ap, ◌∙◌, Bool, List, [], ◌∷◌, ◌==◌, length, eq_iff, Bool-cases,
  inl, inr,
}
use app_gate.Base.Assoc.{lookup}
use app_gate.Base.Words.{u32_mod}
use app_gate.RustGateway.Config.{CircuitBreakerConfig}
use app_gate.RustGateway.CircuitBreaker.Automaton.{passing, verdicts}
use app_gate.RustGateway.CircuitBreaker.Refinement.{answers-verdicts}
use app_gate.RustGateway.CircuitBreaker.Registry.{
  CircuitBreakerRegistry, new_registry, get, or_insert, get_or_create, breaker_of,
}
use app_gate.RustGateway.CircuitBreaker.Registry.Sharing.{
  IsValid, new_registry-IsValid, or_insert-IsValid, update-IsValid, get-or_insert,
}
use app_gate.RustGateway.CircuitBreaker.Trace.{Call, step, answer, answers}
use app_gate.RustGateway.CircuitBreaker.Registry.Keyed.{
  Use, found, called, call_at, use_registry, told, told_at, answers_for, calls_for,
}
use app_gate.RustGateway.CircuitBreaker.Registry.Current.{
  current, get_or_create_once, or_insert-current, held, update-own, update-other,
}

module _ (key k : String) (c : Call) (r : CircuitBreakerRegistry) (v : IsValid r) where
  called_at : use_registry r (called k c) ≡ call_at c (or_insert k r)
  unfolding use_registry
  called_at = ap (call_at c) (get_or_create_once k r)

  inserted-IsValid : IsValid (or_insert k r).0
  inserted-IsValid = or_insert-IsValid k r v

  called-IsValid : IsValid (use_registry r (called k c))
  unfolding call_at
  called-IsValid =
      subst IsValid (sym called_at)
        (update-IsValid (or_insert k r).1 (λ b. step b c) (or_insert k r).0 inserted-IsValid)

  called-own : k ≡ key → current key (use_registry r (called k c)) ≡ step (current key r) c
  unfolding call_at
  called-own same =
      let stored = ap (λ j. get j (or_insert k r).0) (sym same) ∙ get-or_insert k r in
      ap (current key) called_at
      ∙ update-own key (or_insert k r).0 (or_insert k r).1 (λ b. step b c) inserted-IsValid stored
      ∙ ap (λ b. step b c) (or_insert-current k key r v)

  called-other : k ≢ key → current key (use_registry r (called k c)) ≡ current key r
  unfolding call_at
  called-other differ =
      ap (current key) called_at
      ∙ update-other k key (or_insert k r).0 (or_insert k r).1 (λ b. step b c) inserted-IsValid
          (get-or_insert k r) differ
      ∙ or_insert-current k key r v

  told-own :
      (rest : List Bool)
      → k ≡ key
      → told_at c (get_or_create k r r) rest ≡ answer (current key r) c rest
  told-own rest same =
      let stored = ap (λ j. get j (or_insert k r).0) (sym same) ∙ get-or_insert k r in
      ap (λ p. told_at c p rest) (get_or_create_once k r)
      ∙ ap (λ o. told o c rest)
          (held key (or_insert k r).0 (or_insert k r).1 inserted-IsValid stored)
      ∙ ap (λ b. answer b c rest) (or_insert-current k key r v)

found-IsValid :
    (k : String) (r : CircuitBreakerRegistry) → IsValid r → IsValid (use_registry r (found k))
unfolding use_registry
found-IsValid k r v =
    subst IsValid (sym (ap (λ p. p.0) (get_or_create_once k r))) (or_insert-IsValid k r v)

found-current :
    (key k : String) (r : CircuitBreakerRegistry)
    → IsValid r
    → current key (use_registry r (found k)) ≡ current key r
unfolding use_registry
found-current key k r v =
    ap (λ p. current key p.0) (get_or_create_once k r) ∙ or_insert-current k key r v

answers_for-answers :
    (key : String) (r : CircuitBreakerRegistry) (us : List Use)
    → IsValid r
    → answers_for key r us ≡ answers (current key r) (calls_for key us)
unfolding answers_for calls_for answers
answers_for-answers key r [] v = refl
answers_for-answers key r (found k ∷ us) v =
    answers_for-answers key (use_registry r (found k)) us (found-IsValid k r v)
    ∙ ap (λ b. answers b (calls_for key us)) (found-current key k r v)
answers_for-answers key r (called k c ∷ us) v =
    let later =
      answers_for-answers key (use_registry r (called k c)) us (called-IsValid key k c r v) in
    elim (Bool-cases (k == key)) [
      | inl same ↦
          let e = (eq_iff k key).0 same in
          rw same (
            told-own key k c r v (answers_for key (use_registry r (called k c)) us) e
            ∙ ap (answer (current key r) c)
                (later ∙ ap (λ b. answers b (calls_for key us)) (called-own key k c r v e)))
      | inr different ↦
          let differ = λ (e : k ≡ key). false≢true (sym different ∙ (eq_iff k key).1 e) in
          rw different
            (later ∙ ap (λ b. answers b (calls_for key us)) (called-other key k c r v differ))
    ]

-- However many tasks use the breakers of a new registry, in whatever order, and whichever keys they
-- ask for: what the users of one key are told is what the automaton tells them at their own calls,
-- if these are fewer than 2 ^ 32.
pub answers_for-verdicts :
    (config : CircuitBreakerConfig) (key : String) (us : List Use)
    → length (calls_for key us) < u32_mod
    → answers_for key (new_registry config) us ≡ verdicts config (passing 0) (calls_for key us)
unfolding new_registry breaker_of get lookup
answers_for-verdicts config key us h =
    answers_for-answers key (new_registry config) us (new_registry-IsValid config)
    ∙ answers-verdicts config (calls_for key us) h
