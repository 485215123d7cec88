-- ===== src/RustGateway/Accept/Permits.antt =====
-- The connections that the server holds.
use app_gate.Base.{◌+◌, ◌≤◌, ◌≡◌, ◌≢◌, refl, List, [], ◌∷◌, arith, All}
use app_gate.RustGateway.Accept.{
  Server, Event, accepted, accept_failed, arm_done, shutdown, finished, panicked, start, step,
}

unfoldable pub run : Server → List Event → Server
run s [] = s
run s (event ∷ events) = run (step s event) events

pub record IsValid (s : Server) : Type 0 where
  pub permits_live : s.permits + s.live ≡ 10000
  pub live_counted : s.live ≤ s.active_connections

step-IsValid : (s : Server) (event : Event) → IsValid s → IsValid (step s event)
unfolding step
step-IsValid s accepted v = ground arith
step-IsValid s accept_failed v = ground arith
step-IsValid s arm_done v = ground arith
step-IsValid s shutdown v = ground arith
step-IsValid s finished v = ground arith
step-IsValid s panicked v = ground arith

run-IsValid : (s : Server) (events : List Event) → IsValid s → IsValid (run s events)
unfolding run
run-IsValid s [] v = v
run-IsValid s (event ∷ events) v = run-IsValid (step s event) events (step-IsValid s event v)

-- The counter is exact.
IsExact : Server → Type 0
IsExact s = s.active_connections ≡ s.live

step-IsExact : (s : Server) (event : Event) → event ≢ panicked → IsExact s → IsExact (step s event)
unfolding IsExact step
step-IsExact s accepted n h = ground arith
step-IsExact s accept_failed n h = ground arith
step-IsExact s arm_done n h = ground arith
step-IsExact s shutdown n h = ground arith
step-IsExact s finished n h = ground arith
step-IsExact s panicked n h = absurd (n refl)

run-IsExact :
    (s : Server) (events : List Event)
    → All (λ event. event ≢ panicked) events
    → IsExact s
    → IsExact (run s events)
unfolding run
run-IsExact s [] n h = h
run-IsExact s (event ∷ events) (n, ns) h =
    run-IsExact (step s event) events ns (step-IsExact s event n h)

start-IsValid : IsValid start
start-IsValid = record { permits_live = refl; live_counted = omega arith }

-- After any events, the free permits and the running connections are 10000 together, and the
-- counter is at least the number of running connections, whatever panics.
pub start-run :
    (events : List Event)
    → ((run start events).permits + (run start events).live ≡ 10000)
      × ((run start events).live ≤ (run start events).active_connections)
start-run events =
    let v = run-IsValid start events start-IsValid in (v.permits_live, v.live_counted)

-- If no connection panics, the counter is the number of running connections after any events.
pub start-run_exact :
    (events : List Event)
    → All (λ event. event ≢ panicked) events
    → (run start events).active_connections ≡ (run start events).live
unfolding IsExact
start-run_exact events n = run-IsExact start events n refl
