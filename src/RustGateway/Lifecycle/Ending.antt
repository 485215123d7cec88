-- ===== src/RustGateway/Lifecycle/Ending.antt =====
-- When a shutdown is in time: a drain that has begun, and connections that finish meanwhile.
use app_gate.Base.{
  ℕ, zero, suc, ◌+◌, ◌≤◌, ◌<◌, ◌≡◌, ◌≢◌, refl, sym, true, none, some, List, [], ◌∷◌, ◌++◌, All,
  arith,
}
use mathlib.Core.Path.{subst}
use app_gate.RustGateway.Accept.{
  stopped, accepted, accept_failed, arm_done, finished, panicked, shutdown,
}
use app_gate.RustGateway.Lifecycle.{
  Lifecycle, Event, signal, passed, timed_out, serving, drain_begun, drain_turn, step, run,
}
use app_gate.RustGateway.Startup.{draining, exited}

-- A server that drains since `start`, with `n` connections that its counter knows, in a process
-- that drains since `since`.
abbrev pub closing : ℕ → ℕ → ℕ → ℕ → ℕ → Lifecycle
closing since start permits n now = record {
  process = record { phase = draining since; server = none };
  server = record {
    phase = stopped;
    is_forwarded = true;
    permits = permits;
    active_connections = n;
    live = n;
  };
  now = now;
  drain_start = some start;
}

-- No connection panics.
abbrev pub IsCalm : List Event → Type 0
IsCalm es = All (λ e. e ≢ serving panicked) es

-- The time that passes.
abbrev pub elapsed : List Event → ℕ
elapsed [] = 0
elapsed (passed ms ∷ es) = ms + elapsed es
elapsed (signal ∷ es) = elapsed es
elapsed (timed_out ∷ es) = elapsed es
elapsed (serving e ∷ es) = elapsed es
elapsed (drain_begun ∷ es) = elapsed es
elapsed (drain_turn ∷ es) = elapsed es

-- The connections that finish.
abbrev pub finishes : List Event → ℕ
finishes [] = 0
finishes (serving finished ∷ es) = finishes es + 1
finishes (serving accepted ∷ es) = finishes es
finishes (serving accept_failed ∷ es) = finishes es
finishes (serving arm_done ∷ es) = finishes es
finishes (serving shutdown ∷ es) = finishes es
finishes (serving panicked ∷ es) = finishes es
finishes (passed ms ∷ es) = finishes es
finishes (signal ∷ es) = finishes es
finishes (timed_out ∷ es) = finishes es
finishes (drain_begun ∷ es) = finishes es
finishes (drain_turn ∷ es) = finishes es

-- Ended in time, with no connection cut off.
pub record HasDrained (l : Lifecycle) : Type 0 where
  pub in_time : l.process.phase ≡ exited true
  pub all_finished : l.server.live ≡ 0

step-exited : (e : Event) (l : Lifecycle) → l.process.phase ≡ exited true → step e l ≡ l
unfolding step
step-exited e l h = simp h refl

run-HasDrained : (es : List Event) (l : Lifecycle) → HasDrained l → HasDrained (run es l)
unfolding run
run-HasDrained [] l h = h
run-HasDrained (e ∷ es) l h =
    run-HasDrained es (step e l) (subst HasDrained (sym (step-exited e l h.in_time)) h)

module _ (since start : ℕ) (early : since ≤ start) where
  step-timed_out :
      (permits n now : ℕ)
      → now < since + 30000
      → step timed_out (closing since start permits n now) ≡ closing since start permits n now
  unfolding step
  step-timed_out permits n now h = ground arith

  step-turn_busy :
      (permits n now : ℕ)
      → now < since + 30000
      → step drain_turn (closing since start permits (suc n) now)
        ≡ closing since start permits (suc n) now
  unfolding step
  step-turn_busy permits n now h = ground (arith, early)

  step-turn_idle :
      (permits now : ℕ) → HasDrained (step drain_turn (closing since start permits 0 now))
  unfolding step
  step-turn_idle permits now = record { in_time = refl; all_finished = refl }

  -- A process that drains since a signal, whose server has begun to drain since then and counts the
  -- connections that are running, ends in time with no connection cut off, whatever events come,
  -- looks at the timer of the process and of its drain among them, if less than 30 seconds pass in
  -- all since the signal, no connection panics, as many connections finish as are running, and the
  -- drain looks once more at the end.
  pub run-HasDrained_of :
      (es : List Event) (permits n now : ℕ)
      → IsCalm es
      → now + elapsed es < since + 30000
      → n ≤ finishes es
      → HasDrained (run (es ++ drain_turn ∷ []) (closing since start permits n now))
  unfolding run step
  run-HasDrained_of [] permits zero now calm soon all = step-turn_idle permits now
  run-HasDrained_of [] permits (suc n) now calm soon all = absurd (omega (arith, all))
  run-HasDrained_of (signal ∷ es) permits n now calm soon all =
      run-HasDrained_of es permits n now calm.1 soon all
  run-HasDrained_of (passed ms ∷ es) permits n now calm soon all =
      run-HasDrained_of es permits n (now + ms) calm.1 (omega (arith, soon)) all
  run-HasDrained_of (timed_out ∷ es) permits n now calm soon all =
      subst (λ l. HasDrained (run (es ++ drain_turn ∷ []) l))
        (sym (step-timed_out permits n now (omega (arith, soon))))
        (run-HasDrained_of es permits n now calm.1 soon all)
  run-HasDrained_of (serving accepted ∷ es) permits n now calm soon all =
      run-HasDrained_of es permits n now calm.1 soon all
  run-HasDrained_of (serving accept_failed ∷ es) permits n now calm soon all =
      run-HasDrained_of es permits n now calm.1 soon all
  run-HasDrained_of (serving arm_done ∷ es) permits n now calm soon all =
      run-HasDrained_of es permits n now calm.1 soon all
  run-HasDrained_of (serving shutdown ∷ es) permits n now calm soon all =
      run-HasDrained_of es permits n now calm.1 soon all
  run-HasDrained_of (serving finished ∷ es) permits zero now calm soon all =
      run-HasDrained_of es permits zero now calm.1 soon (omega arith)
  run-HasDrained_of (serving finished ∷ es) permits (suc n) now calm soon all =
      run-HasDrained_of es (permits + 1) n now calm.1 soon (omega (arith, all))
  run-HasDrained_of (serving panicked ∷ es) permits n now calm soon all = absurd (calm.0 refl)
  run-HasDrained_of (drain_begun ∷ es) permits n now calm soon all =
      run-HasDrained_of es permits n now calm.1 soon all
  run-HasDrained_of (drain_turn ∷ es) permits zero now calm soon all =
      run-HasDrained (es ++ drain_turn ∷ []) _ (step-turn_idle permits now)
  run-HasDrained_of (drain_turn ∷ es) permits (suc n) now calm soon all =
      subst (λ l. HasDrained (run (es ++ drain_turn ∷ []) l))
        (sym (step-turn_busy permits n now (omega (arith, soon))))
        (run-HasDrained_of es permits (suc n) now calm.1 soon all)
