-- ===== src/RustGateway/Startup/Unbound.antt =====
-- A process of rust-gateway/src/main.rs whose server cannot listen.
use app_gate.Base.{String, ℕ, ◌≡◌, refl, ap, ◌∙◌, true, some, List, [], ◌∷◌, ◌++◌, All}
use app_gate.Base.Result.{Result, ok, err}
use app_gate.RustGateway.Accept.Listening.{listen}
use app_gate.RustGateway.Config.{GatewayConfig}
use app_gate.RustGateway.Startup.{
  waiting, exited, Process, started, Event, server_ended, signalled, clock, step, run,
}
use app_gate.RustGateway.Startup.Signals.{IsNoSignal}

-- What the task of the server brings at once: its error, or nothing while it serves.
abbrev pub at_once : Result String String → List Event
at_once (ok addr) = []
at_once (err e) = server_ended (err e) ∷ []

-- A process that waits, and whose server has ended.
abbrev abandoned : Result (Unit {0}) String → Process
abandoned r = record { phase = waiting; server = some r }

run-abandoned :
    (es : List Event) (r : Result (Unit {0}) String)
    → All IsNoSignal es
    → (last : Result (Unit {0}) String) × (run es (abandoned r) ≡ abandoned last)
unfolding run step
run-abandoned [] r quiet = (r, refl)
run-abandoned (server_ended other ∷ es) r quiet = run-abandoned es other quiet.1
run-abandoned (signalled now ∷ es) r quiet = absurd quiet.0
run-abandoned (clock now ∷ es) r quiet = run-abandoned es r quiet.1

module _ (parse : String → Result String String) (bind : String → Result (Unit {0}) String)
    (config : GatewayConfig) where
  -- The process as its server's task and the events after that leave it.
  abbrev pub after_start : List Event → Process
  after_start es = run (at_once (listen parse bind config) ++ es) started

  started-abandoned :
      (e : String) (es : List Event)
      → listen parse bind config ≡ err e
      → All IsNoSignal es
      → (last : Result (Unit {0}) String) × (after_start es ≡ abandoned last)
  unfolding run step
  started-abandoned e es refused quiet =
      let (last, left) = run-abandoned es (err e) quiet in
      (last, ap (λ r. run (at_once r ++ es) started) refused ∙ left)

  -- If the server cannot listen, the process waits through any events without a signal, and at the
  -- signal it ends at once, as a shutdown in time.
  pub unbound-waits :
      (e : String) (es : List Event) (now : ℕ)
      → listen parse bind config ≡ err e
      → All IsNoSignal es
      → ((after_start es).phase ≡ waiting)
        × ((step (signalled now) (after_start es)).phase ≡ exited true)
  unfolding step
  unbound-waits e es now refused quiet =
      let (last, left) = started-abandoned e es refused quiet in
      (ap (λ p. p.phase) left, ap (λ p. (step (signalled now) p).phase) left)
