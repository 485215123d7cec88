-- ===== src/Base/Governor.antt =====
-- The third-party crate `governor`, as far as the limiters call it: a limiter of type `L` for one
-- quota, without keys. A refusal tells how long to wait.
use Prim.Native.Nat.{ℕ, ◌-◌}
use mathlib.Core.Bool.{Bool, true, false}
use mathlib.Core.List.{List, [], ◌∷◌}
use app_gate.Base.Result.{Result, ok, err}
use app_gate.Base.Tests.{ltb, if◌then◌else◌}

pub record Quota : Type 0 where
  pub per_second : ℕ
  pub burst : ℕ

-- `Quota::per_second`: the burst is as large as the rate.
abbrev pub per_second : ℕ → Quota
per_second n = record { per_second = n; burst = n }

abbrev pub allow_burst : ℕ → Quota → Quota
allow_burst n quota = record quota { burst = n }

-- `check` is told the time and gives the limiter that it leaves.
pub record Governor (L : Type 0) : Type 0 where
  pub direct : Quota → L
  pub check : ℕ → L → Result (Unit {0}) ℕ × L

abbrev pub is_ok {ℓ κ} : {A : Type ℓ} {E : Type κ} → Result A E → Bool
is_ok (ok a) = true
is_ok (err e) = false

-- The answers of one limiter that is asked at each of these times.
unfoldable pub grants : {L : Type 0} → Governor L → List ℕ → L → List Bool
grants governor [] limiter = []
grants governor (now ∷ later) limiter =
    let (answer, next) = governor.check now limiter in is_ok answer ∷ grants governor later next

-- A concrete limiter for tests: it grants its burst once.
abbrev pub countdown : Governor ℕ
countdown = record {
  direct = λ quota. quota.burst;
  check = λ now left. if ltb 0 left then (ok tt, left - 1) else (err 1, left);
}
