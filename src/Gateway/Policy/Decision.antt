-- ===== src/Gateway/Policy/Decision.antt =====
-- When a request is allowed, and by which policy.
use app_gate.Base.{
  String, ◌≡◌, refl, ◌↔◌, ◌⊎◌, inl, inr, Bool, true, false, Option, none, some, List, [], ◌∷◌,
  arith, any, Any, All, Any-middle, All-not-Any, IsFirst, IsFirst-head, IsFirst-tail, contains,
  contains_iff, Bool-cases, sym, ap, ◌∙◌, not, ◌&&◌, if◌then◌else◌,
}
use mathlib.Core.Bool.{false≢true}
use app_gate.Gateway.Policy.{
  some_matches, is_empty, evaluate_loaded, Policy, PolicyEngine, EvaluationResult, granted, denied,
  matches_roles, matches_subject, evaluate_from, evaluate,
}

-- The meaning of a policy, clause by clause. A selector that is absent selects nobody; an empty
-- list of providers or models excludes none.
abbrev pub Listed : Option (List String) → (String → Type 0) → Type 0
Listed none P = ⊥
Listed (some xs) P = Any P xs

abbrev pub Covers : List String → String → Type 0
Covers xs a = (xs ≡ []) ⊎ Any (λ x. x ≡ a) xs

pub record Permits (identity_id : String) (roles : List String) (provider model : String)
    (policy : Policy) : Type 0 where
  pub subject :
      Any (λ role. Listed policy.spec.subjects.roles (λ r. r ≡ role)) roles
      ⊎ Listed policy.spec.subjects.users (λ user. user ≡ identity_id)
  pub provider_covered : Covers policy.spec.providers provider
  pub model_covered : Covers policy.spec.models model

Any-⊥ : (xs : List String) → ¬ Any (λ x. ⊥) xs
Any-⊥ [] h = h
Any-⊥ (x ∷ xs) h = ground (arith, Any-⊥ xs)

matches_roles_iff :
    (rs roles : List String)
    → (matches_roles rs roles ≡ true) ↔ Any (λ role. Any (λ r. r ≡ role) rs) roles
unfolding matches_roles any
matches_roles_iff rs [] = ground arith
matches_roles_iff rs (role ∷ roles) =
    ground (arith, contains_iff rs role, matches_roles_iff rs roles)

roles_iff :
    (o : Option (List String)) (roles : List String)
    → (some_matches (λ rs. matches_roles rs roles) o ≡ true)
      ↔ Any (λ role. Listed o (λ r. r ≡ role)) roles
roles_iff none roles = (λ h. cc, λ h. absurd (Any-⊥ roles h))
roles_iff (some rs) roles = matches_roles_iff rs roles

users_iff :
    (o : Option (List String)) (identity_id : String)
    → (some_matches (λ users. contains users identity_id) o ≡ true)
      ↔ Listed o (λ user. user ≡ identity_id)
users_iff none identity_id = (λ h. cc, λ h. absurd h)
users_iff (some users) identity_id = contains_iff users identity_id

matches_subject_iff :
    (p : Policy) (identity_id : String) (roles : List String)
    → (matches_subject p identity_id roles ≡ true) ↔ (
        Any (λ role. Listed p.spec.subjects.roles (λ r. r ≡ role)) roles
        ⊎ Listed p.spec.subjects.users (λ user. user ≡ identity_id))
unfolding matches_subject
matches_subject_iff p identity_id roles =
    ground
      (arith, roles_iff p.spec.subjects.roles roles, users_iff p.spec.subjects.users identity_id)

-- The guard of the loop: the list is not empty and lacks the item.
excludes : List String → String → Bool
excludes xs a = not (is_empty xs) && not (contains xs a)

excludes_iff : (xs : List String) (a : String) → (excludes xs a ≡ false) ↔ Covers xs a
unfolding excludes
excludes_iff [] a = ground arith
excludes_iff (x ∷ xs) a = ground (arith, contains_iff (x ∷ xs) a)

abbrev pub none_loaded : List Policy → Bool
none_loaded [] = true
none_loaded (p ∷ ps) = false

module _ (identity_id : String) (roles : List String) (provider model : String) where
  -- What the loop does at one policy.
  abbrev permits : Policy → Bool
  permits p =
      matches_subject p identity_id roles
      && (not (excludes p.spec.providers provider) && not (excludes p.spec.models model))

  permits_iff : (p : Policy) → (permits p ≡ true) ↔ Permits identity_id roles provider model p
  permits_iff p = (
    λ h. record {
      subject = (matches_subject_iff p identity_id roles).0 (ground arith);
      provider_covered = (excludes_iff p.spec.providers provider).0 (ground arith);
      model_covered = (excludes_iff p.spec.models model).0 (ground arith);
    },
    λ h. ground (
      arith,
      (matches_subject_iff p identity_id roles).1 h.subject,
      (excludes_iff p.spec.providers provider).1 h.provider_covered,
      (excludes_iff p.spec.models model).1 h.model_covered,
    ),
  )

  evaluate_from_cons :
      (p : Policy) (ps : List Policy)
      → evaluate_from (p ∷ ps) identity_id roles provider model
        ≡ (if permits p then granted p else evaluate_from ps identity_id roles provider model)
  unfolding evaluate_from excludes
  evaluate_from_cons p ps = ground arith

  abbrev pub Outcome : List Policy → EvaluationResult → EvaluationResult → Type 0
  Outcome ps otherwise r =
      ((p : Policy) × IsFirst (Permits identity_id roles provider model) ps p × (r ≡ granted p))
      ⊎ (All (λ q. ¬ Permits identity_id roles provider model q) ps × (r ≡ otherwise))

  not-Permits : (p : Policy) → permits p ≡ false → ¬ Permits identity_id roles provider model p
  not-Permits p h k = false≢true (sym h ∙ (permits_iff p).1 k)

  Outcome-cons :
      (p : Policy) (ps : List Policy) (r otherwise : EvaluationResult)
      → permits p ≡ false
      → Outcome ps otherwise r
      → Outcome (p ∷ ps) otherwise r
  Outcome-cons p ps r otherwise h (inl (q, f, e)) =
      inl (q, IsFirst-tail _ p q ps (not-Permits p h) f, e)
  Outcome-cons p ps r otherwise h (inr (none_left, e)) = inr ((not-Permits p h, none_left), e)

  evaluate_from_cases :
      (ps : List Policy)
      → Outcome ps
          (denied "No matching policy found")
          (evaluate_from ps identity_id roles provider model)
  evaluate_from_cases [] = inr (tt, unfold evaluate_from in refl)
  evaluate_from_cases (p ∷ ps) = elim (Bool-cases (permits p)) [
    | inl h ↦ inl (p, IsFirst-head _ p ps ((permits_iff p).0 h), evaluate_from_cons p ps ∙ (rw h))
    | inr h ↦ rw (evaluate_from_cons p ps, h) (Outcome-cons p ps _ _ h (evaluate_from_cases ps))
  ]

  loaded_cases :
      (ps : List Policy)
      → Outcome ps
          (if none_loaded ps
            then denied "No policies configured - fail closed"
            else denied "No matching policy found")
          (evaluate_loaded ps identity_id roles provider model)
  loaded_cases [] = inr (tt, refl)
  loaded_cases (p ∷ ps) = evaluate_from_cases (p ∷ ps)

  -- Every evaluation either grants the request by the first policy that permits it, or denies it
  -- with no policy, and then none permits it; an engine without policies names its own reason.
  pub evaluate_cases :
      (engine : PolicyEngine)
      → Outcome engine.policies
          (if none_loaded engine.policies
            then denied "No policies configured - fail closed"
            else denied "No matching policy found")
          (evaluate engine identity_id roles provider model)
  unfolding evaluate
  evaluate_cases engine = loaded_cases engine.policies

  allowed_iff_of_Outcome :
      (ps : List Policy) (otherwise r : EvaluationResult)
      → otherwise.allowed ≡ false
      → Outcome ps otherwise r
      → (r.allowed ≡ true) ↔ Any (Permits identity_id roles provider model) ps
  allowed_iff_of_Outcome ps otherwise r h (inl (p, f, e)) =
      (λ _. rw f.cut (Any-middle _ p f.before f.after f.satisfied), λ _. ap (λ x. x.allowed) e)
  allowed_iff_of_Outcome ps otherwise r h (inr (unpermitted, e)) = (
    λ k. absurd (false≢true (sym (ap (λ x. x.allowed) e ∙ h) ∙ k)),
    λ a. absurd (All-not-Any _ ps unpermitted a),
  )

  otherwise_denies : (b : Bool) (s t : String) → (if b then denied s else denied t).allowed ≡ false
  otherwise_denies b s t = ground arith

  -- A request is allowed exactly when some policy of the engine permits it.
  pub allowed_iff :
      (engine : PolicyEngine)
      → ((evaluate engine identity_id roles provider model).allowed ≡ true)
        ↔ Any (Permits identity_id roles provider model) engine.policies
  allowed_iff engine =
      allowed_iff_of_Outcome engine.policies _ _
        (otherwise_denies (none_loaded engine.policies) _ _) (evaluate_cases engine)
