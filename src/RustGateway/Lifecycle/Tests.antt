-- ===== src/RustGateway/Lifecycle/Tests.antt =====
-- A shutdown in time, and two that cut a connection off.
use app_gate.Base.{◌+◌, ◌≤◌, ◌<◌, arith, ◌≡◌, refl, true, false, List, [], ◌∷◌, ◌++◌}
use app_gate.RustGateway.Accept.{accepted, arm_done, finished, shutdown}
use app_gate.RustGateway.Lifecycle.{
  begun, Event, signal, passed, timed_out, serving, drain_begun, drain_turn, run, step,
}
use app_gate.RustGateway.Lifecycle.Graceful.{IsOrderly, run-IsOrderly}
use app_gate.RustGateway.Lifecycle.Ending.{closing, IsCalm, HasDrained, run-HasDrained_of}
use app_gate.RustGateway.Startup.{exited}

-- One connection is taken, and the server drains from 5 ms on.
abbrev up_to_drain : List Event
up_to_drain =
    serving accepted ∷ serving arm_done ∷ passed 5 ∷ signal ∷ serving shutdown ∷ drain_begun ∷ []

reached : run up_to_drain begun ≡ closing 5 5 9999 1 5
unfolding run step
reached = refl

-- The connection ends while the server drains.
abbrev meanwhile : List Event
meanwhile = drain_turn ∷ passed 100 ∷ timed_out ∷ serving finished ∷ []

run-IsOrderly_example : IsOrderly (run (up_to_drain ++ meanwhile) begun)
run-IsOrderly_example = run-IsOrderly (up_to_drain ++ meanwhile)

meanwhile-IsCalm : IsCalm meanwhile
meanwhile-IsCalm = (λ h. cc, (λ h. cc, (λ h. cc, (λ h. cc, tt))))

early_enough : 5 ≤ 5
early_enough = omega arith

soon_enough : 5 + 100 < 5 + 30000
soon_enough = omega arith

one_finishes : 1 ≤ 1
one_finishes = omega arith

run-HasDrained_of_example : HasDrained (run (meanwhile ++ drain_turn ∷ []) (closing 5 5 9999 1 5))
run-HasDrained_of_example =
    run-HasDrained_of 5 5 early_enough meanwhile 9999 1 5 meanwhile-IsCalm soon_enough one_finishes

-- The process gives up, if its timer is looked at first.
cut_off :
    ((run (up_to_drain ++ passed 30001 ∷ timed_out ∷ []) begun).process.phase ≡ exited false)
    × ((run (up_to_drain ++ passed 30001 ∷ timed_out ∷ []) begun).server.live ≡ 1)
unfolding run step
cut_off = (refl, refl)

-- The server gives up, if its drain looks first, and the process ends as if in time.
gave_up :
    ((run (up_to_drain ++ passed 30001 ∷ drain_turn ∷ []) begun).process.phase ≡ exited true)
    × ((run (up_to_drain ++ passed 30001 ∷ drain_turn ∷ []) begun).server.live ≡ 1)
unfolding run step
gave_up = (refl, refl)
