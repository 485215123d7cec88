-- ===== src/Gateway/Policy.antt =====
-- gateway/src/policy.rs: the policies that the control plane serves, their evaluation, and the
-- loop that refreshes them. An engine is the pair that the tasks share: the swapped list and the
-- health flag. Logging is left out.
pub mod Decision
pub mod Refresh
mod Tests
use app_gate.Base.{
  length, ℕ, ◌+◌, String, Bool, true, false, not, ◌&&◌, ◌||◌, Option, none, some, List, [], ◌∷◌,
  any, contains, trim_end_matches, ◌+++◌, if◌then◌else◌,
}

pub record SubjectSelector : Type 0 where
  pub roles : Option (List String)
  pub users : Option (List String)

pub record RateLimits : Type 0 where
  pub requests_per_minute : ℕ

pub record LoggingConfig : Type 0 where
  pub metadata_only : Bool

pub record PolicySpec : Type 0 where
  pub subjects : SubjectSelector
  pub providers : List String
  pub models : List String
  pub limits : RateLimits
  pub logging : LoggingConfig

pub record Policy : Type 0 where
  pub id : String
  pub name : String
  pub spec : PolicySpec

pub record EvaluationResult : Type 0 where
  pub allowed : Bool
  pub policy_id : Option String
  pub reason : String

pub record PolicyEngine : Type 0 where
  pub policies : List Policy
  pub control_plane_url : String
  pub healthy : Bool

unfoldable pub new : String → PolicyEngine
new control_plane_url = record {
  policies = [];
  control_plane_url = control_plane_url;
  healthy = true;
}

-- The loop over the caller's roles.
unfoldable pub matches_roles : List String → List String → Bool
matches_roles policy_roles roles = any (λ role. contains policy_roles role) roles

abbrev some_matches : (List String → Bool) → Option (List String) → Bool
some_matches test none = false
some_matches test (some xs) = test xs

unfoldable pub matches_subject : Policy → String → List String → Bool
matches_subject policy identity_id roles =
    let subjects = policy.spec.subjects in
    if some_matches (λ policy_roles. matches_roles policy_roles roles) subjects.roles
    then true
    else some_matches (λ policy_users. contains policy_users identity_id) subjects.users

abbrev is_empty : List String → Bool
is_empty [] = true
is_empty (x ∷ xs) = false

abbrev pub denied : String → EvaluationResult
denied reason = record { allowed = false; policy_id = none; reason = reason }

abbrev pub granted : Policy → EvaluationResult
granted policy = record {
  allowed = true;
  policy_id = some policy.id;
  reason = "Access granted by policy";
}

-- The loop of `evaluate`: each `continue` goes on with the rest of the list.
unfoldable pub evaluate_from :
    List Policy → String → List String → String → String → EvaluationResult
evaluate_from [] identity_id roles provider model = denied "No matching policy found"
evaluate_from (policy ∷ rest) identity_id roles provider model =
    let later = evaluate_from rest identity_id roles provider model in
    if not (matches_subject policy identity_id roles)
    then later
    else if not (is_empty policy.spec.providers) && not (contains policy.spec.providers provider)
    then later
    else if not (is_empty policy.spec.models) && not (contains policy.spec.models model)
    then later
    else granted policy

abbrev evaluate_loaded : List Policy → String → List String → String → String → EvaluationResult
evaluate_loaded [] identity_id roles provider model = denied "No policies configured - fail closed"
evaluate_loaded (policy ∷ rest) identity_id roles provider model =
    evaluate_from (policy ∷ rest) identity_id roles provider model

unfoldable pub evaluate : PolicyEngine → String → List String → String → String → EvaluationResult
evaluate engine identity_id roles provider model =
    evaluate_loaded engine.policies identity_id roles provider model

-- What one request of the refresh loop comes back with: an error of the transport, or a response
-- with its status class and the outcome of decoding its body.
pub record Response : Type 0 where
  pub is_success : Bool
  pub json : Option (List Policy)

abbrev store_fetched : Option (List Policy) → PolicyEngine → PolicyEngine
store_fetched none engine = engine
store_fetched (some fetched) engine = record engine { policies = fetched; healthy = true }

-- One round of the loop in `start_policy_refresh`; `none` is an error of the transport.
unfoldable pub refresh : Option Response → PolicyEngine → PolicyEngine
refresh none engine = record engine { healthy = false }
refresh (some resp) engine = if resp.is_success then store_fetched resp.json engine else engine

-- The address that the loop asks.
unfoldable pub refresh_url : PolicyEngine → String
unfolding trim_end_matches
refresh_url engine = trim_end_matches b'/' engine.control_plane_url +++ "/v1/policies"

unfoldable pub policy_count : PolicyEngine → ℕ
policy_count engine = length engine.policies

unfoldable pub is_healthy : PolicyEngine → Bool
is_healthy engine = engine.healthy
