-- ===== src/Gateway/Policy/Tests.antt =====
-- The policy of the source's own tests, and the theorems at it.
use app_gate.Base.{
  String, ◌≡◌, refl, ◌↔◌, true, false, Option, none, some, List, [], ◌∷◌, Any, any, contains,
  if◌then◌else◌,
}
use app_gate.Gateway.Policy.{
  Policy, PolicyEngine, Response, new, matches_roles, matches_subject, evaluate_from, evaluate,
  refresh_url, denied, granted,
}
use app_gate.Gateway.Policy.Decision.{Permits, Outcome, none_loaded, evaluate_cases, allowed_iff}
use app_gate.Gateway.Policy.Refresh.{run, fetched, evaluate_last_fetched}

abbrev test_policy : Policy
test_policy = record {
  id = "test-1";
  name = "Engineering LLM Access";
  spec = record {
    subjects = record { roles = some ("engineering" ∷ []); users = none };
    providers = "openai" ∷ [];
    models = "gpt-4" ∷ [];
    limits = record { requests_per_minute = 60 };
    logging = record { metadata_only = true };
  };
}

abbrev engine : PolicyEngine
engine = record {
  policies = test_policy ∷ [];
  control_plane_url = "http://localhost:8443/";
  healthy = true;
}

abbrev engineer : List String
engineer = "engineering" ∷ []

granted-engineer : evaluate engine "user-1" engineer "openai" "gpt-4" ≡ granted test_policy
unfolding evaluate evaluate_from matches_subject matches_roles contains any
granted-engineer = refl

denied_marketing :
    evaluate engine "user-1" ("marketing" ∷ []) "openai" "gpt-4" ≡ denied "No matching policy found"
unfolding evaluate evaluate_from matches_subject matches_roles contains any
denied_marketing = refl

asked_at : refresh_url engine ≡ "http://localhost:8443/v1/policies"
unfolding refresh_url
asked_at = refl

evaluate_cases_example :
    Outcome "user-1" engineer "openai" "gpt-4" engine.policies
      (if none_loaded engine.policies
        then denied "No policies configured - fail closed"
        else denied "No matching policy found")
      (evaluate engine "user-1" engineer "openai" "gpt-4")
evaluate_cases_example = evaluate_cases "user-1" engineer "openai" "gpt-4" engine

allowed_iff_example :
    ((evaluate engine "user-1" engineer "openai" "gpt-4").allowed ≡ true)
    ↔ Any (Permits "user-1" engineer "openai" "gpt-4") engine.policies
allowed_iff_example = allowed_iff "user-1" engineer "openai" "gpt-4" engine

abbrev failures : List (Option Response)
failures = none ∷ some (record { is_success = false; json = none }) ∷ []

evaluate_last_fetched_example :
    evaluate
      (run (new "http://c") (none ∷ fetched (test_policy ∷ []) ∷ failures))
      "user-1"
      engineer
      "openai"
      "gpt-4"
    ≡ evaluate
        (record (new "http://c") { policies = test_policy ∷ [] })
        "user-1"
        engineer
        "openai"
        "gpt-4"
evaluate_last_fetched_example =
    evaluate_last_fetched (new "http://c") (none ∷ []) failures (test_policy ∷ []) "user-1" engineer
      "openai" "gpt-4" (tt, ((λ h. cc), tt))

abbrev unreadable : List (Option Response)
unreadable = some (record { is_success = true; json = none }) ∷ []
