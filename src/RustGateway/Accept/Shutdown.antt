-- ===== src/RustGateway/Accept/Shutdown.antt =====
-- When the shutdown signal ends the loop.
use app_gate.Base.{◌≡◌, refl, ◌∙◌, Bool, true, false, List, [], ◌∷◌, arith}
use app_gate.RustGateway.Accept.{
  Phase, selecting, handling, stopped, Server, Event, accepted, accept_failed, arm_done, shutdown,
  finished, panicked, step,
}
use app_gate.RustGateway.Accept.Permits.{run}

abbrev pub is_stopped : Phase → Bool
is_stopped selecting = false
is_stopped handling = false
is_stopped stopped = true

abbrev pub is_waiting : Phase → Bool
is_waiting selecting = true
is_waiting handling = false
is_waiting stopped = false

-- Once the signal has been forwarded, nothing starts or ends the loop any more.
step_forwarded :
    (s : Server) (event : Event)
    → s.is_forwarded ≡ true
    → ((step s event).is_forwarded ≡ true) × (is_stopped (step s event).phase ≡ is_stopped s.phase)
unfolding step
step_forwarded s accepted h = ground arith
step_forwarded s accept_failed h = ground arith
step_forwarded s arm_done h = ground arith
step_forwarded s shutdown h = ground arith
step_forwarded s finished h = ground arith
step_forwarded s panicked h = ground arith

run_forwarded :
    (s : Server) (events : List Event)
    → s.is_forwarded ≡ true
    → is_stopped (run s events).phase ≡ is_stopped s.phase
unfolding run
run_forwarded s [] h = refl
run_forwarded s (event ∷ events) h =
    let (forwarded, kept) = step_forwarded s event h in
    run_forwarded (step s event) events forwarded ∙ kept

notified_first :
    (s : Server)
    → s.is_forwarded ≡ false
    → is_stopped s.phase ≡ false
    → ((step s shutdown).is_forwarded ≡ true)
      × (is_stopped (step s shutdown).phase ≡ is_waiting s.phase)
unfolding step
notified_first s h k = ground arith

-- The shutdown signal ends a running loop exactly when the loop waits at that moment. A signal that
-- comes while the loop handles a connection is lost: whatever happens later, the loop goes on.
pub shutdown-run :
    (s : Server) (events : List Event)
    → s.is_forwarded ≡ false
    → is_stopped s.phase ≡ false
    → is_stopped (run s (shutdown ∷ events)).phase ≡ is_waiting s.phase
unfolding run
shutdown-run s events h k =
    let (forwarded, stops) = notified_first s h k in
    run_forwarded (step s shutdown) events forwarded ∙ stops
