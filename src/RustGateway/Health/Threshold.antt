-- ===== src/RustGateway/Health/Threshold.antt =====
-- When an upstream counts as healthy.
use mathlib.Core.Option
use app_gate.Base.{
  ℕ, zero, suc, ◌+◌, ◌<◌, String, ◌≡◌, refl, ap, ◌∙◌, ◌⊎◌, inl, inr, Option, none, some, List, [],
  ◌∷◌, ◌++◌, arith, replicate, ltb, eq_iff,
}
use app_gate.Base.Assoc.{lookup, lookup-insert}
use app_gate.Base.Words.{u32_mod}
use app_gate.RustGateway.Health.{
  HealthStatus, Upstreams, registered, register, checked, healthy_or_unknown, is_healthy,
}
use app_gate.RustGateway.Health.Refinement.{Checks, run, outcomes_of, observe, lookup-run}

-- The last `k` outcomes are failures, and the one before them, if any, a success.
abbrev pub EndsInFailures : ℕ → List (Option ℕ) → Type 0
EndsInFailures k outcomes =
    (outcomes ≡ replicate k none)
    ⊎ ((before : List (Option ℕ)) × (elapsed : ℕ) × (outcomes
          ≡ before ++ some elapsed ∷ replicate k none))

pub record IsCounting (failures : ℕ) (status : HealthStatus) : Type 0 where
  pub counted : status.consecutive_failures ≡ failures
  pub healthy_below : status.healthy ≡ ltb failures 3

failed-IsCounting :
    (n : ℕ) (status : HealthStatus)
    → n + 1 < u32_mod
    → IsCounting n status
    → IsCounting (suc n) (checked none status)
unfolding checked
failed-IsCounting n status h c = ground arith

recast : (m n : ℕ) (status : HealthStatus) → m ≡ n → IsCounting m status → IsCounting n status
recast m n status h c = record {
  counted = c.counted ∙ h;
  healthy_below = c.healthy_below ∙ ap (λ k. ltb k 3) h;
}

observe_failures :
    (k n : ℕ) (status : HealthStatus)
    → n + k < u32_mod
    → IsCounting n status
    → IsCounting (n + k) (observe status (replicate k none))
unfolding observe replicate
observe_failures zero n status h c = recast n (n + zero) status (omega arith) c
observe_failures (suc k) n status h c =
    let later =
      observe_failures k (suc n) (checked none status) (omega (arith, h))
        (failed-IsCounting n status (omega (arith, h)) c) in
    recast (suc n + k) (n + suc k) _ (omega arith) later

observe-append :
    (status : HealthStatus) (xs ys : List (Option ℕ))
    → observe status (xs ++ ys) ≡ observe (observe status xs) ys
unfolding observe
observe-append status [] ys = refl
observe-append status (x ∷ xs) ys = observe-append (checked x status) xs ys

fresh-IsCounting : (now : ℕ) → IsCounting 0 (registered now)
fresh-IsCounting now = record { counted = refl; healthy_below = refl }

revived-IsCounting :
    (elapsed : ℕ) (status : HealthStatus) → IsCounting 0 (checked (some elapsed) status)
unfolding checked
revived-IsCounting elapsed status = record { counted = refl; healthy_below = refl }

observe_zero :
    (k : ℕ) (status : HealthStatus)
    → k < u32_mod
    → IsCounting 0 status
    → IsCounting k (observe status (replicate k none))
observe_zero k status h c =
    recast (0 + k) k _ (omega arith) (observe_failures k 0 status (omega (arith, h)) c)

pub observe_ending :
    (k now : ℕ) (outcomes : List (Option ℕ))
    → k < u32_mod
    → EndsInFailures k outcomes
    → IsCounting k (observe (registered now) outcomes)
observe_ending k now outcomes h (inl e) =
    rw e (observe_zero k (registered now) h (fresh-IsCounting now))
observe_ending k now outcomes h (inr (before, elapsed, e)) =
    let status = observe (registered now) before in
    rw (e, observe-append (registered now) before (some elapsed ∷ replicate k none))
      (unfold observe in
        observe_zero k (checked (some elapsed) status) h (revived-IsCounting elapsed status))

pub lookup-register :
    (now : ℕ) (name : String) (upstreams : Upstreams)
    → lookup name (register now name upstreams) ≡ some (registered now)
unfolding register
lookup-register now name upstreams =
    lookup-insert name name (registered now) upstreams ∙ (rw ((eq_iff name name).1 refl) refl)

-- An upstream that was registered is healthy exactly while its checks end in fewer than three
-- failures, for runs of failures shorter than 2 ^ 32: whatever came before, whatever the checks of
-- other upstreams came to, and whatever was in the table.
pub register-is_healthy :
    (now k : ℕ) (name : String) (upstreams : Upstreams) (checks : Checks)
    → k < u32_mod
    → EndsInFailures k (outcomes_of name checks)
    → is_healthy name (run (register now name upstreams) checks) ≡ ltb k 3
unfolding is_healthy
register-is_healthy now k name upstreams checks h ending =
    let entry =
      lookup-run name (register now name upstreams) checks
      ∙ ap (Option.map (λ s. observe s (outcomes_of name checks)))
          (lookup-register now name upstreams) in
    ap healthy_or_unknown entry
    ∙ (observe_ending k now (outcomes_of name checks) h ending).healthy_below
