-- ===== src/RustGateway/Health/Rounds.antt =====
-- The rounds of the background task of rust-gateway/src/health.rs, one after the other.
use mathlib.Core.Bool.{false≢true}
use mathlib.Core.Option
use mathlib.Core.Path.{subst}
use app_gate.Base.{
  ℕ, ◌<◌, String, ◌≡◌, ◌≢◌, refl, sym, ap, ◌∙◌, Bool-cases, inl, inr, Option, List, [], ◌∷◌, ◌==◌,
  eq_iff, map, All, arith, ltb,
}
use app_gate.Base.Assoc.{lookup, insert, modify, keys}
use app_gate.Base.Words.{u32_mod}
use app_gate.RustGateway.Health.{
  HealthStatus, Upstreams, registered, register, checked, check, healthy_or_unknown, is_healthy,
}
use app_gate.RustGateway.Health.Refinement.{Checks, run, observe, map-map, map_id}
use app_gate.RustGateway.Health.Round.{Distinct, checks_of, round, lookup-round}
use app_gate.RustGateway.Health.Threshold.{EndsInFailures, observe_ending, lookup-register}

-- Each round with what the requests of that round come back with.
unfoldable pub rounds : List (String → Option ℕ) → Upstreams → Upstreams
rounds [] upstreams = upstreams
rounds (outcome ∷ later) upstreams = rounds later (round outcome upstreams)

keys-modify :
    (key : String) (change : HealthStatus → HealthStatus) (entries : Upstreams)
    → keys (modify key change entries) ≡ keys entries
unfolding keys modify
keys-modify key change [] = refl
keys-modify key change ((name, old) ∷ rest) = ground (arith, keys-modify key change rest)

keys-run : (checks : Checks) (upstreams : Upstreams) → keys (run upstreams checks) ≡ keys upstreams
unfolding run check
keys-run [] upstreams = refl
keys-run ((name, outcome) ∷ rest) upstreams =
    keys-run rest (check name outcome upstreams) ∙ keys-modify name (checked outcome) upstreams

keys-round :
    (outcome : String → Option ℕ) (upstreams : Upstreams)
    → keys (round outcome upstreams) ≡ keys upstreams
unfolding round
keys-round outcome upstreams = keys-run (checks_of outcome (keys upstreams)) upstreams

All-insert :
    (key name : String) (new : HealthStatus) (entries : Upstreams)
    → key ≢ name
    → All (λ other. other ≢ name) (keys entries)
    → All (λ other. other ≢ name) (keys (insert key new entries))
unfolding keys insert
All-insert key name new [] differ h = (differ, tt)
All-insert key name new ((other, old) ∷ rest) differ (h, hs) =
    ground (arith, All-insert key name new rest differ hs)

Distinct-insert :
    (key : String) (new : HealthStatus) (entries : Upstreams)
    → Distinct (keys entries)
    → Distinct (keys (insert key new entries))
unfolding keys insert
Distinct-insert key new [] d = (tt, tt)
Distinct-insert key new ((name, old) ∷ rest) (h, d) = elim (Bool-cases (name == key)) [
  | inl same ↦
      let e = (eq_iff name key).0 same in
      rw same (subst (λ n. All (λ other. other ≢ n) (keys rest)) e h, d)
  | inr different ↦
      let differ : key ≢ name = λ e. false≢true (sym different ∙ (eq_iff name key).1 (sym e)) in
      rw different (All-insert key name new rest differ h, Distinct-insert key new rest d)
]

lookup-rounds :
    (name : String) (outcomes : List (String → Option ℕ)) (upstreams : Upstreams)
    → Distinct (keys upstreams)
    → lookup name (rounds outcomes upstreams)
      ≡ Option.map (λ s. observe s (map (λ o. o name) outcomes)) (lookup name upstreams)
unfolding rounds observe
lookup-rounds name [] upstreams d = map_id (lookup name upstreams)
lookup-rounds name (outcome ∷ later) upstreams d =
    lookup-rounds name later (round outcome upstreams)
      (subst Distinct (sym (keys-round outcome upstreams)) d)
    ∙ ap (Option.map (λ s. observe s (map (λ o. o name) later)))
        (lookup-round outcome name upstreams d)
    ∙ map-map (checked (outcome name)) (λ s. observe s (map (λ o. o name) later))
        (lookup name upstreams)

-- An upstream that is registered, in a table with no name twice, is healthy after any rounds of the
-- background task exactly while the last of its own outcomes are fewer than three failures, for runs
-- of failures shorter than 2 ^ 32: whatever the requests to the other upstreams come to.
pub rounds-is_healthy :
    (now k : ℕ) (name : String) (upstreams : Upstreams) (outcomes : List (String → Option ℕ))
    → Distinct (keys upstreams)
    → k < u32_mod
    → EndsInFailures k (map (λ o. o name) outcomes)
    → is_healthy name (rounds outcomes (register now name upstreams)) ≡ ltb k 3
unfolding is_healthy register
rounds-is_healthy now k name upstreams outcomes d h ending =
    let mine = map (λ (o : String → Option ℕ). o name) outcomes in
    ap healthy_or_unknown (
      lookup-rounds name outcomes (register now name upstreams)
        (Distinct-insert name (registered now) upstreams d)
      ∙ ap (Option.map (λ s. observe s mine)) (lookup-register now name upstreams))
    ∙ (observe_ending k now mine h ending).healthy_below
