-- ===== src/Gateway/Policy/Refresh.antt =====
-- What the refresh loop does to the decisions, over any sequence of outcomes.
use app_gate.Base.{
  String, ◌≡◌, refl, ap, ◌∙◌, true, Option, none, some, List, [], ◌∷◌, ◌++◌, arith, All,
}
use app_gate.Gateway.Policy.{
  evaluate_loaded, Policy, PolicyEngine, Response, new, refresh, evaluate, denied,
}

pub run : PolicyEngine → List (Option Response) → PolicyEngine
run engine [] = engine
run engine (outcome ∷ rest) = run (refresh outcome engine) rest

-- The round brought no list of policies.
abbrev pub IsFailure : Option Response → Type 0
IsFailure none = Unit
IsFailure (some resp) = (resp.is_success ≡ true) → (resp.json ≡ none)

-- The round reached the control plane, and brought no list of policies.
abbrev pub IsRejected : Option Response → Type 0
IsRejected none = ⊥
IsRejected (some resp) = (resp.is_success ≡ true) → (resp.json ≡ none)

abbrev pub fetched : List Policy → Option Response
fetched policies = some (record { is_success = true; json = some policies })

refresh_failure :
    (engine : PolicyEngine) (outcome : Option Response)
    → IsFailure outcome
    → (refresh outcome engine).policies ≡ engine.policies
unfolding refresh
refresh_failure engine none h = refl
refresh_failure engine (some resp) h = ground arith

run_failures :
    (engine : PolicyEngine) (outcomes : List (Option Response))
    → All IsFailure outcomes
    → (run engine outcomes).policies ≡ engine.policies
unfolding run
run_failures engine [] h = refl
run_failures engine (outcome ∷ rest) (h, hs) =
    run_failures (refresh outcome engine) rest hs ∙ refresh_failure engine outcome h

run-append :
    (engine : PolicyEngine) (xs ys : List (Option Response))
    → run engine (xs ++ ys) ≡ run (run engine xs) ys
unfolding run
run-append engine [] ys = refl
run-append engine (x ∷ xs) ys = run-append (refresh x engine) xs ys

last_fetched :
    (engine : PolicyEngine) (policies : List Policy) (after : List (Option Response))
    → All IsFailure after
    → (run engine (fetched policies ∷ after)).policies ≡ policies
unfolding run
last_fetched engine policies after h =
    run_failures (refresh (fetched policies) engine) after h ∙ (unfold refresh in refl)

-- The engine decides by the last list that was fetched: failures of any kind after it, and
-- everything before it, make no difference.
pub evaluate_last_fetched :
    (engine : PolicyEngine) (before after : List (Option Response)) (policies : List Policy)
    (identity_id : String) (roles : List String) (provider model : String)
    → All IsFailure after
    → evaluate (run engine (before ++ fetched policies ∷ after)) identity_id roles provider model
      ≡ evaluate (record engine { policies = policies }) identity_id roles provider model
unfolding evaluate
evaluate_last_fetched engine before after policies identity_id roles provider model h =
    ap (λ ps. evaluate_loaded ps identity_id roles provider model)
      (ap (λ e. e.policies) (run-append engine before (fetched policies ∷ after))
        ∙ last_fetched (run engine before) policies after h)

-- Until a first list is fetched, whatever the rounds come back with, every request is denied.
pub new-fails_closed :
    (url : String) (outcomes : List (Option Response)) (identity_id : String) (roles : List String)
    (provider model : String)
    → All IsFailure outcomes
    → evaluate (run (new url) outcomes) identity_id roles provider model
      ≡ denied "No policies configured - fail closed"
unfolding evaluate new
new-fails_closed url outcomes identity_id roles provider model h =
    ap (λ ps. evaluate_loaded ps identity_id roles provider model)
      (run_failures (new url) outcomes h)

refresh_rejected :
    (engine : PolicyEngine) (outcome : Option Response)
    → IsRejected outcome
    → refresh outcome engine ≡ engine
unfolding refresh
refresh_rejected engine none h = absurd h
refresh_rejected engine (some resp) h = ground arith

-- A response that brings no list changes nothing, the health flag included: after any number of
-- them an engine that never had a policy still says that it is healthy.
pub run_rejected :
    (engine : PolicyEngine) (outcomes : List (Option Response))
    → All IsRejected outcomes
    → run engine outcomes ≡ engine
unfolding run
run_rejected engine [] h = refl
run_rejected engine (outcome ∷ rest) (h, hs) =
    run_rejected (refresh outcome engine) rest hs ∙ refresh_rejected engine outcome h
