-- ===== src/RustGateway/Accept/Tests.antt =====
-- A loop that takes two connections, and a drain that waits for the second.
use app_gate.Base.{
  ℕ, ◌+◌, ◌*◌, ◌≤◌, ◌≡◌, refl, Bool, true, false, suc, some, List, [], ◌∷◌, arith, ltb,
  if◌then◌else◌,
}
use app_gate.RustGateway.Accept.{
  Server, Event, accepted, accept_failed, arm_done, shutdown, finished, panicked, handling, Drained,
  drained, drain, start, step,
}
use app_gate.RustGateway.Accept.Drain.{Outcome, drain_ends}
use app_gate.RustGateway.Accept.Permits.{run, start-run}
use app_gate.RustGateway.Accept.Shutdown.{is_stopped, is_waiting, shutdown-run}

abbrev events : List Event
events = accepted ∷ arm_done ∷ accepted ∷ finished ∷ []

-- The loop is in the arm of the second connection.
busy : Server
busy = run start events

busy_phase : busy.phase ≡ handling
unfolding busy run step
busy_phase = refl

start-run_example :
    ((run start events).permits + (run start events).live ≡ 10000)
    × ((run start events).live ≤ (run start events).active_connections)
start-run_example = start-run events

-- No event is a panic.
is_panic : Event → Bool
is_panic accepted = false
is_panic accept_failed = false
is_panic arm_done = false
is_panic shutdown = false
is_panic finished = false
is_panic panicked = true

running : ((run start events).is_forwarded ≡ false) × (is_stopped (run start events).phase ≡ false)
unfolding run step
running = (refl, refl)

shutdown-run_example :
    is_stopped (run (run start events) (shutdown ∷ arm_done ∷ [])).phase
    ≡ is_waiting (run start events).phase
shutdown-run_example = shutdown-run (run start events) (arm_done ∷ []) running.0 running.1

-- The connection ends within three turns.
abbrev active : ℕ → ℕ
active i = if ltb i 3 then 1 else 0

abbrev elapsed : ℕ → ℕ
elapsed i = i * 100

paced : (i : ℕ) → elapsed i + 100 ≤ elapsed (suc i)
paced i = omega arith

fourth_turn : drain active elapsed 302 0 ≡ some drained
unfolding drain
fourth_turn = refl

drain_ends_example :
    (o : Drained) × (drain active elapsed 302 0 ≡ some o) × Outcome active elapsed paced o
drain_ends_example = drain_ends active elapsed paced
