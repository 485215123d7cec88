-- ===== src/RustGateway/Lifecycle/Graceful.antt =====
-- What a shutdown in time means.
use app_gate.Base.Result.{Result}
use app_gate.Base.{
  String, ℕ, ◌-◌, ◌≤◌, ◌<◌, ◌≡◌, ◌≢◌, ◌⊎◌, true, false, Option, none, some, List, [], ◌∷◌, arith,
}
use app_gate.RustGateway.Accept
use app_gate.RustGateway.Accept.{
  selecting, handling, stopped, accepted, accept_failed, arm_done, shutdown, finished, panicked,
  shutdown_max_wait_ms,
}
use app_gate.RustGateway.Startup
use app_gate.RustGateway.Startup.{waiting, draining, exited}
use app_gate.RustGateway.Lifecycle.{
  Lifecycle, begun, Event, signal, passed, timed_out, serving, drain_begun, drain_turn, step, run,
}

-- The drain has not begun before the signal.
abbrev pub Since : ℕ → Option ℕ → Type 0
Since since none = Unit {0}
Since since (some start) = since ≤ start

-- The drain is past its limit.
abbrev pub GaveUp : Option ℕ → ℕ → Type 0
GaveUp none now = ⊥
GaveUp (some start) now = shutdown_max_wait_ms < now - start

-- What holds in each phase of the process.
abbrev Holds : Startup.Phase → Lifecycle → Type 0
Holds waiting l =
    (l.server.phase ≢ stopped)
    × (l.drain_start ≡ none)
    × (l.process.server ≡ none)
    × (l.server.live ≤ l.server.active_connections)
Holds (draining since) l =
    (since ≤ l.now) × Since since l.drain_start × (l.server.live ≤ l.server.active_connections)
Holds (exited true) l = (l.server.live ≡ 0) ⊎ GaveUp l.drain_start l.now
Holds (exited false) l = 30000 ≤ l.now

Sound : Lifecycle → Type 0
Sound l = Holds l.process.phase l

module _ (phase : Startup.Phase) (ended : Option (Result (Unit {0}) String)) (s : Accept.Server)
    (now : ℕ) (drain_start : Option ℕ) where
  abbrev at_phase : Lifecycle
  at_phase = record {
    process = record { phase = phase; server = ended };
    server = s;
    now = now;
    drain_start = drain_start;
  }

signal-Sound :
    (phase : Startup.Phase) (ended : Option (Result (Unit {0}) String)) (s : Accept.Server)
    (now : ℕ) (ds : Option ℕ)
    → Sound (at_phase phase ended s now ds)
    → Sound (step signal (at_phase phase ended s now ds))
unfolding Sound step
signal-Sound waiting ended s now ds h = ground arith
signal-Sound (draining since) ended s now ds h = ground arith
signal-Sound (exited b) ended s now ds h = h

passed-Sound :
    (ms : ℕ) (phase : Startup.Phase) (ended : Option (Result (Unit {0}) String)) (s : Accept.Server)
    (now : ℕ) (ds : Option ℕ)
    → Sound (at_phase phase ended s now ds)
    → Sound (step (passed ms) (at_phase phase ended s now ds))
unfolding Sound step
passed-Sound ms waiting ended s now ds h = ground arith
passed-Sound ms (draining since) ended s now ds h = ground arith
passed-Sound ms (exited b) ended s now ds h = h

timed_out-Sound :
    (phase : Startup.Phase) (ended : Option (Result (Unit {0}) String)) (s : Accept.Server)
    (now : ℕ) (ds : Option ℕ)
    → Sound (at_phase phase ended s now ds)
    → Sound (step timed_out (at_phase phase ended s now ds))
unfolding Sound step
timed_out-Sound waiting ended s now ds h = h
timed_out-Sound (draining since) ended s now ds h = ground arith
timed_out-Sound (exited b) ended s now ds h = h

serving-Sound :
    (e : Accept.Event) (phase : Startup.Phase) (ended : Option (Result (Unit {0}) String))
    (s : Accept.Server) (now : ℕ) (ds : Option ℕ)
    → Sound (at_phase phase ended s now ds)
    → Sound (step (serving e) (at_phase phase ended s now ds))
unfolding Sound step
serving-Sound accepted waiting ended s now ds h = ground arith
serving-Sound accept_failed waiting ended s now ds h = ground arith
serving-Sound arm_done waiting ended s now ds h = ground arith
serving-Sound shutdown waiting ended s now ds h = h
serving-Sound finished waiting ended s now ds h = ground arith
serving-Sound panicked waiting ended s now ds h = ground arith
serving-Sound accepted (draining since) ended s now ds h = ground arith
serving-Sound accept_failed (draining since) ended s now ds h = ground arith
serving-Sound arm_done (draining since) ended s now ds h = ground arith
serving-Sound shutdown (draining since) ended s now ds h = ground arith
serving-Sound finished (draining since) ended s now ds h = ground arith
serving-Sound panicked (draining since) ended s now ds h = ground arith
serving-Sound e (exited b) ended s now ds h = h

drain-Sound :
    (phase : Startup.Phase) (ended : Option (Result (Unit {0}) String)) (s : Accept.Server)
    (now : ℕ) (ds : Option ℕ)
    → Sound (at_phase phase ended s now ds)
    → Sound (step drain_begun (at_phase phase ended s now ds))
unfolding Sound step
drain-Sound waiting ended s now ds h = ground arith
drain-Sound (draining since) ended s now none h = ground arith
drain-Sound (draining since) ended s now (some start) h = ground arith
drain-Sound (exited b) ended s now ds h = h

turn-Sound :
    (phase : Startup.Phase) (ended : Option (Result (Unit {0}) String)) (s : Accept.Server)
    (now : ℕ) (ds : Option ℕ)
    → Sound (at_phase phase ended s now ds)
    → Sound (step drain_turn (at_phase phase ended s now ds))
unfolding Sound step
turn-Sound waiting ended s now none h = h
turn-Sound waiting ended s now (some start) h = ground arith
turn-Sound (draining since) ended s now none h = h
turn-Sound (draining since) ended s now (some start) h = ground arith
turn-Sound (exited b) ended s now ds h = h

step-Sound : (e : Event) (l : Lifecycle) → Sound l → Sound (step e l)
step-Sound signal l h = signal-Sound l.process.phase l.process.server l.server l.now l.drain_start h
step-Sound (passed ms) l h =
    passed-Sound ms l.process.phase l.process.server l.server l.now l.drain_start h
step-Sound timed_out l h =
    timed_out-Sound l.process.phase l.process.server l.server l.now l.drain_start h
step-Sound (serving e) l h =
    serving-Sound e l.process.phase l.process.server l.server l.now l.drain_start h
step-Sound drain_begun l h =
    drain-Sound l.process.phase l.process.server l.server l.now l.drain_start h
step-Sound drain_turn l h =
    turn-Sound l.process.phase l.process.server l.server l.now l.drain_start h

run-Sound : (es : List Event) (l : Lifecycle) → Sound l → Sound (run es l)
unfolding run
run-Sound [] l h = h
run-Sound (e ∷ es) l h = run-Sound es (step e l) (step-Sound e l h)

begun-Sound : Sound begun
unfolding Sound
begun-Sound = ground arith

abbrev pub Orderly : Startup.Phase → Lifecycle → Type 0
Orderly waiting l = l.drain_start ≡ none
Orderly (draining since) l = (since ≤ l.now) × Since since l.drain_start
Orderly (exited true) l = (l.server.live ≡ 0) ⊎ GaveUp l.drain_start l.now
Orderly (exited false) l = 30000 ≤ l.now

pub IsOrderly : Lifecycle → Type 0
IsOrderly l = Orderly l.process.phase l

Holds-Orderly : (phase : Startup.Phase) (l : Lifecycle) → Holds phase l → Orderly phase l
Holds-Orderly waiting l h = h.1
Holds-Orderly (draining since) l h = (h.0, h.1)
Holds-Orderly (exited true) l h = h
Holds-Orderly (exited false) l h = h

-- Whatever signals, connections and delays come, in whatever order the tasks of `main` and of the
-- server run: the server begins no drain before the process has its signal, and dates none before
-- it; a process that ended in time has no connection running, unless more than 30 seconds passed
-- since its drain began; and one that gave up on its server had run for 30 seconds at least.
pub run-IsOrderly : (es : List Event) → IsOrderly (run es begun)
unfolding IsOrderly Sound
run-IsOrderly es =
    Holds-Orderly (run es begun).process.phase (run es begun) (run-Sound es begun begun-Sound)
