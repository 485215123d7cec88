-- ===== src/Base/Decimal.antt =====
-- The decimal digits of a number, as `to_string` and `format!` write it.
use Prim.Native.Nat.{ℕ, zero, suc, ◌/◌, ◌%◌, ◌<◌, ◌^◌}
use Prim.Native.String.{String}
use mathlib.Core.Bool.{true}
use mathlib.Core.Path.{◌≡◌, refl, ap}
use native.Mathlib.Omega.{arith, pow_step}
use app_gate.Base.Tests.{ltb, nat_eq, if◌then◌else◌}
use app_gate.Base.Text.{◌+++◌}

abbrev digit : ℕ → String
digit n =
    if nat_eq n 0
    then "0"
    else if nat_eq n 1
    then "1"
    else if nat_eq n 2
    then "2"
    else if nat_eq n 3
    then "3"
    else if nat_eq n 4
    then "4"
    else if nat_eq n 5
    then "5"
    else if nat_eq n 6
    then "6"
    else if nat_eq n 7
    then "7"
    else if nat_eq n 8
    then "8"
    else "9"

-- The first argument is fuel, one for each digit.
unfoldable decimal : ℕ → ℕ → String
decimal zero n = ""
decimal (suc fuel) n =
    let rest = decimal fuel (n / 10) in if ltb n 10 then digit n else rest +++ digit (n % 10)

-- A number of 64 bits has at most 20 digits.
unfoldable pub to_string : ℕ → String
unfolding decimal
to_string n = decimal 20 n

-- More fuel than digits changes nothing.
decimal_enough :
    (fuel n : ℕ) → n < 10 ^ suc fuel → decimal (suc fuel) n ≡ decimal (suc (suc fuel)) n
unfolding decimal
decimal_enough zero n h = let small : ltb n 10 ≡ true = ground (arith, h) in simp (small) refl
decimal_enough (suc fuel) n h =
    let rest = decimal_enough fuel (n / 10) (omega (arith, h, pow_step 10 (suc fuel))) in
    ap (λ r. if ltb n 10 then digit n else r +++ digit (n % 10)) rest
