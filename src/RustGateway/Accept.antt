-- ===== src/RustGateway/Accept.antt =====
-- rust-gateway/src/server.rs: the accept loop with its semaphore and connection counter, the
-- shutdown signal, and the drain after the loop. `Notify::notify_waiters` wakes a task that waits at
-- that moment and stores nothing for one that does not. A task that panics drops its permit, and does
-- not get to the decrement; with the release profile of Cargo.toml it ends the process instead, and
-- so the run.
pub mod Permits
pub mod Shutdown
pub mod Drain
pub mod Listening
mod Tests
use app_gate.Base.{
  ℕ, zero, suc, ◌+◌, ◌-◌, Bool, true, false, Option, none, some, ltb, if◌then◌else◌,
}
use app_gate.Base.Words.{u64_mod}

-- Where the loop is: in `select!`, in the arm of a connection, or behind the loop.
pub data Phase : Type 0 where
  selecting handling stopped : Phase

pub record Server : Type 0 where
  pub phase : Phase
  -- The task that forwards the one shutdown signal has ended.
  pub is_forwarded : Bool
  pub permits : ℕ
  pub active_connections : ℕ
  -- The connection tasks that run.
  pub live : ℕ

abbrev pub start : Server
start = record {
  phase = selecting;
  is_forwarded = false;
  permits = 10000;
  active_connections = 0;
  live = 0;
}

pub data Event : Type 0 where
  accepted accept_failed arm_done shutdown finished panicked : Event

-- `try_acquire_owned` and what follows it.
abbrev admit : ℕ → Server → Server
admit zero s = record s { phase = handling }
admit (suc permits) s = record s {
  phase = handling;
  permits = permits;
  active_connections = s.active_connections + 1;
  live = s.live + 1;
}

abbrev on_accepted : Phase → Server → Server
on_accepted selecting s = admit s.permits s
on_accepted handling s = s
on_accepted stopped s = s

abbrev on_accept_failed : Phase → Server → Server
on_accept_failed selecting s = record s { phase = handling }
on_accept_failed handling s = s
on_accept_failed stopped s = s

abbrev on_arm_done : Phase → Server → Server
on_arm_done selecting s = s
on_arm_done handling s = record s { phase = selecting }
on_arm_done stopped s = s

-- `notify_waiters`
abbrev notified : Phase → Server → Server
notified selecting s = record s { phase = stopped; is_forwarded = true }
notified handling s = record s { is_forwarded = true }
notified stopped s = record s { is_forwarded = true }

-- `fetch_sub(1)`
abbrev fetch_sub : ℕ → ℕ
fetch_sub zero = u64_mod - 1
fetch_sub (suc n) = n

abbrev on_finished : ℕ → Server → Server
on_finished zero s = s
on_finished (suc live) s = record s {
  permits = s.permits + 1;
  active_connections = fetch_sub s.active_connections;
  live = live;
}

abbrev on_panicked : ℕ → Server → Server
on_panicked zero s = s
on_panicked (suc live) s = record s { permits = s.permits + 1; live = live }

unfoldable pub step : Server → Event → Server
step s accepted = on_accepted s.phase s
step s accept_failed = on_accept_failed s.phase s
step s arm_done = on_arm_done s.phase s
step s shutdown = if s.is_forwarded then s else notified s.phase s
step s finished = on_finished s.live s
step s panicked = on_panicked s.live s

pub data Drained : Type 0 where
  drained forced : Drained

abbrev pub shutdown_max_wait_ms : ℕ
shutdown_max_wait_ms = 30000

-- The drain loop, at its `i`-th turn: what it reads of the counter and of the clock.
unfoldable pub drain : (ℕ → ℕ) → (ℕ → ℕ) → ℕ → ℕ → Option Drained
drain active elapsed zero i = none
drain active elapsed (suc fuel) i =
    let rest = drain active elapsed fuel (suc i) in
    if ltb 0 (active i)
    then if ltb shutdown_max_wait_ms (elapsed i) then some forced else rest
    else some drained
