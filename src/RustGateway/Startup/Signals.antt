-- ===== src/RustGateway/Startup/Signals.antt =====
-- How and when the process of rust-gateway/src/main.rs ends.
use app_gate.Base.{
  if◌then◌else◌, String, ℕ, ◌+◌, ◌≤◌, ◌≡◌, refl, ap, ◌∙◌, Bool, true, false, Option, none, some,
  List, [], ◌∷◌, ◌++◌, All, arith, leb,
}
use app_gate.Base.Result.{Result}
use app_gate.RustGateway.Startup.{
  Phase, waiting, draining, exited, Process, started, Event, server_ended, signalled, clock, step,
  run,
}

abbrev pub IsNoSignal : Event → Type 0
IsNoSignal (server_ended r) = Unit {0}
IsNoSignal (signalled now) = ⊥
IsNoSignal (clock now) = Unit {0}

abbrev in_phase : Phase → Option (Result (Unit {0}) String) → Process
in_phase phase server = record { phase = phase; server = server }

waits :
    (es : List Event) (server : Option (Result (Unit {0}) String))
    → All IsNoSignal es
    → (run es (in_phase waiting server)).phase ≡ waiting
unfolding run step
waits [] server quiet = refl
waits (server_ended r ∷ es) server quiet = waits es (some r) quiet.1
waits (signalled now ∷ es) server quiet = absurd quiet.0
waits (clock now ∷ es) server quiet = waits es server quiet.1

-- Without a signal, the process waits after every sequence of events, also after its server has
-- ended with an error.
pub run-waits : (es : List Event) → All IsNoSignal es → (run es started).phase ≡ waiting
run-waits es quiet = waits es none quiet

-- The phase once a signal came at `since`.
abbrev IsEnding : ℕ → Phase → Type 0
IsEnding since waiting = ⊥
IsEnding since (draining t) = t ≡ since
IsEnding since (exited in_time) = Unit {0}

abbrev pub HasExited : Process → Type 0
HasExited p = (in_time : Bool) × (p.phase ≡ exited in_time)

signalled-IsEnding :
    (since : ℕ) (phase : Phase) (server : Option (Result (Unit {0}) String))
    → phase ≡ waiting
    → IsEnding since (step (signalled since) (in_phase phase server)).phase
unfolding step
signalled-IsEnding since waiting none h = refl
signalled-IsEnding since waiting (some r) h = tt
signalled-IsEnding since (draining t) server h = cc
signalled-IsEnding since (exited b) server h = cc

clocked-IsEnding :
    (since now t : ℕ) (server : Option (Result (Unit {0}) String)) (late : Bool)
    → t ≡ since
    → IsEnding since
        (if late then in_phase (exited false) server else in_phase (draining t) server).phase
clocked-IsEnding since now t server true e = tt
clocked-IsEnding since now t server false e = e

step-IsEnding :
    (since : ℕ) (e : Event) (phase : Phase) (server : Option (Result (Unit {0}) String))
    → IsEnding since phase
    → IsEnding since (step e (in_phase phase server)).phase
unfolding step
step-IsEnding since e waiting server h = absurd h
step-IsEnding since (server_ended r) (draining t) server h = tt
step-IsEnding since (signalled now) (draining t) server h = h
step-IsEnding since (clock now) (draining t) server h =
    clocked-IsEnding since now t server (leb (t + 30000) now) h
step-IsEnding since (server_ended r) (exited b) server h = tt
step-IsEnding since (signalled now) (exited b) server h = tt
step-IsEnding since (clock now) (exited b) server h = tt

run-IsEnding :
    (since : ℕ) (es : List Event) (p : Process)
    → IsEnding since p.phase
    → IsEnding since (run es p).phase
unfolding run
run-IsEnding since [] p h = h
run-IsEnding since (e ∷ es) p h =
    run-IsEnding since es (step e p) (step-IsEnding since e p.phase p.server h)

last-HasExited :
    (since now : ℕ) (phase : Phase) (server : Option (Result (Unit {0}) String))
    → IsEnding since phase
    → since + 30000 ≤ now
    → HasExited (step (clock now) (in_phase phase server))
unfolding step
last-HasExited since now waiting server h late = absurd h
last-HasExited since now (draining t) server h late =
    let due : leb (t + 30000) now ≡ true = ground (arith, h, late) in (false, simp (due) refl)
last-HasExited since now (exited b) server h late = (b, refl)

run-append : (es later : List Event) (p : Process) → run (es ++ later) p ≡ run later (run es p)
unfolding run
run-append [] later p = refl
run-append (e ∷ es) later p = run-append es later (step e p)

-- After the first signal, whatever happens, the process has ended once the clock shows 30 seconds
-- more.
pub run-HasExited :
    (before after : List Event) (since now : ℕ)
    → All IsNoSignal before
    → since + 30000 ≤ now
    → HasExited (run (before ++ signalled since ∷ (after ++ clock now ∷ [])) started)
unfolding run
run-HasExited before after since now quiet late =
    let p = run before started in
    let q = step (signalled since) p in
    let ending =
      run-IsEnding since after q
        (signalled-IsEnding since p.phase p.server (run-waits before quiet)) in
    let r = run after q in
    let final = last-HasExited since now r.phase r.server ending late in
    let moved =
      run-append before (signalled since ∷ (after ++ clock now ∷ [])) started
      ∙ run-append after (clock now ∷ []) q in
    (final.0, ap (λ s. s.phase) moved ∙ final.1)
