-- ===== src/RustGateway/Health/Round.antt =====
-- One round of the background task of rust-gateway/src/health.rs: the names are read first, and each
-- is checked. `outcome` is what the request to the `/healthz` address of a name comes back with.
use mathlib.Core.Option
use mathlib.Core.Path.{subst}
use app_gate.Base.{
  ℕ, String, ◌≡◌, ◌≢◌, refl, ap, ◌∙◌, Bool-cases, inl, inr, Option, none, some, List, [], ◌∷◌, ◌==◌,
  eq_iff, map, All, arith,
}
use app_gate.Base.Assoc.{lookup, keys}
use app_gate.RustGateway.Health.{HealthStatus, Upstreams, checked}
use app_gate.RustGateway.Health.Refinement.{Checks, run, outcomes_of, observe, lookup-run}

-- No name twice, as in a hash map.
abbrev pub Distinct : List String → Type 0
Distinct [] = Unit
Distinct (name ∷ names) = All (λ other. other ≢ name) names × Distinct names

module _ (outcome : String → Option ℕ) where
  abbrev pub checks_of : List String → Checks
  checks_of names = map (λ name. (name, outcome name)) names

  unfoldable pub round : Upstreams → Upstreams
  unfolding keys
  round upstreams = run upstreams (checks_of (keys upstreams))

  outcomes_of-absent :
      (name : String) (names : List String)
      → All (λ other. other ≢ name) names
      → outcomes_of name (checks_of names) ≡ []
  unfolding outcomes_of
  outcomes_of-absent name [] h = refl
  outcomes_of-absent name (other ∷ names) (differs, rest) =
      ground (arith, outcomes_of-absent name names rest, eq_iff other name)

  outcomes_of-present :
      (name : String) (upstreams : Upstreams) (status : HealthStatus)
      → Distinct (keys upstreams)
      → lookup name upstreams ≡ some status
      → outcomes_of name (checks_of (keys upstreams)) ≡ outcome name ∷ []
  unfolding outcomes_of keys lookup
  outcomes_of-present name [] status d h = cc
  outcomes_of-present name ((other, s) ∷ rest) status (differ, d) h =
      elim (Bool-cases (other == name)) [
        | inl same ↦
            let e = (eq_iff other name).0 same in
            let first = ap outcome e in
            let later =
              outcomes_of-absent name (keys rest)
                (subst (λ n. All (λ m. m ≢ n) (keys rest)) e differ) in
            rw same (cc)
        | inr different ↦ ground (arith, outcomes_of-present name rest status d)
      ]

  present :
      (name : String) (upstreams : Upstreams) (found : Option HealthStatus)
      → Distinct (keys upstreams)
      → lookup name upstreams ≡ found
      → Option.map (λ s. observe s (outcomes_of name (checks_of (keys upstreams)))) found
        ≡ Option.map (checked (outcome name)) found
  unfolding observe
  present name upstreams none d h = refl
  present name upstreams (some status) d h =
      ap (λ os. some (observe status os)) (outcomes_of-present name upstreams status d h)

  -- A round checks every upstream of the table once: the entry of a name is what the outcome of its
  -- own check makes of it, and no entry comes or goes, if no name is in the table twice.
  pub lookup-round :
      (name : String) (upstreams : Upstreams)
      → Distinct (keys upstreams)
      → lookup name (round upstreams) ≡ Option.map (checked (outcome name)) (lookup name upstreams)
  unfolding round
  lookup-round name upstreams d =
      lookup-run name upstreams (checks_of (keys upstreams))
      ∙ present name upstreams (lookup name upstreams) d refl
