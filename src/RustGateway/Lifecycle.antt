-- ===== src/RustGateway/Lifecycle.antt =====
-- The process of rust-gateway/src/main.rs together with the server of rust-gateway/src/server.rs
-- that runs in it, under one clock in milliseconds: the signal that `main` passes on, the drain
-- that the server begins behind its loop, and the 30 seconds that `main` waits for it.
pub mod Graceful
pub mod Ending
mod Tests
use app_gate.Base.{ℕ, ◌+◌, ◌-◌, Bool, Option, none, some, List, [], ◌∷◌, ltb, if◌then◌else◌}
use app_gate.Base.Result.{ok}
use app_gate.RustGateway.Accept
use app_gate.RustGateway.Accept.{selecting, handling, stopped, shutdown, shutdown_max_wait_ms}
use app_gate.RustGateway.Startup
use app_gate.RustGateway.Startup.{
  waiting, draining, exited, started, signalled, clock, server_ended,
}

pub record Lifecycle : Type 0 where
  pub process : Startup.Process
  pub server : Accept.Server
  pub now : ℕ
  -- `drain_start`, once the server is behind its loop.
  pub drain_start : Option ℕ

abbrev pub begun : Lifecycle
begun = record { process = started; server = Accept.start; now = 0; drain_start = none }

-- A signal of the system, the passing of time, a look of `main` at its timer, an event of the
-- accept loop or of a connection, the server's step behind its loop, and one turn of its drain.
-- The tasks of `main` and of the server run in any order, however much time has passed.
pub data Event : Type 0 where
  signal : Event
  passed : ℕ → Event
  timed_out : Event
  serving : Accept.Event → Event
  drain_begun drain_turn : Event

-- The signal is passed on only once `main` has sent it.
abbrev pub serve : Startup.Phase → Accept.Event → Accept.Server → Accept.Server
serve waiting shutdown s = s
serve waiting Accept.accepted s = Accept.step s Accept.accepted
serve waiting Accept.accept_failed s = Accept.step s Accept.accept_failed
serve waiting Accept.arm_done s = Accept.step s Accept.arm_done
serve waiting Accept.finished s = Accept.step s Accept.finished
serve waiting Accept.panicked s = Accept.step s Accept.panicked
serve (draining since) e s = Accept.step s e
serve (exited in_time) e s = Accept.step s e

abbrev pub begin_drain : Accept.Phase → Option ℕ → Lifecycle → Lifecycle
begin_drain stopped none l = record l { drain_start = some l.now }
begin_drain stopped (some start) l = l
begin_drain selecting drain_start l = l
begin_drain handling drain_start l = l

-- `run` of the server returns.
abbrev pub finish : Lifecycle → Lifecycle
finish l = record l { process = Startup.step (server_ended (ok tt)) l.process }

-- One turn of the drain: the loop ends at a counter of zero, and after 30 seconds.
abbrev pub turn : Option ℕ → Lifecycle → Lifecycle
turn none l = l
turn (some start) l =
    if ltb 0 l.server.active_connections
    then if ltb shutdown_max_wait_ms (l.now - start) then finish l else l
    else finish l

abbrev pub advance : ℕ → Lifecycle → Lifecycle
advance ms l = record l { now = l.now + ms }

-- `main` gives up on the server if its 30 seconds are over.
abbrev pub time_out : Lifecycle → Lifecycle
time_out l = record l { process = Startup.step (clock l.now) l.process }

abbrev pub living : Event → Lifecycle → Lifecycle
living signal l = record l { process = Startup.step (signalled l.now) l.process }
living (passed ms) l = advance ms l
living timed_out l = time_out l
living (serving e) l = record l { server = serve l.process.phase e l.server }
living drain_begun l = begin_drain l.server.phase l.drain_start l
living drain_turn l = turn l.drain_start l

-- Nothing happens in a process that has ended.
abbrev pub while_running : Startup.Phase → Event → Lifecycle → Lifecycle
while_running waiting e l = living e l
while_running (draining since) e l = living e l
while_running (exited in_time) e l = l

unfoldable pub step : Event → Lifecycle → Lifecycle
unfolding Startup.step Accept.step
step e l = while_running l.process.phase e l

unfoldable pub run : List Event → Lifecycle → Lifecycle
run [] l = l
run (e ∷ es) l = run es (step e l)
