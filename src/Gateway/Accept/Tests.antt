-- ===== src/Gateway/Accept/Tests.antt =====
-- Two connections, one of which fails its handshake.
use app_gate.Base.{ℕ, ◌<◌, ◌≡◌, refl, Bool, true, false, List, [], ◌∷◌, arith, Option, none, some}
use app_gate.Base.Hyper.{Hyper, HyperLaws}
use app_gate.Gateway.Accept.{
  abort, unwind, start, Event, accepted, handshake_failed, handshake_done, step, run,
}
use app_gate.Gateway.Accept.Timer.{completed, IsLeaking, run-IsLeaking, run-down}

abbrev events : List Event
events = accepted ∷ accepted ∷ handshake_failed ∷ handshake_done ∷ accepted ∷ []

-- One that never panics, and one that panics as documented.
abbrev lenient : Hyper
lenient = record { panics = λ builder. false }

abbrev panics_of : Option ℕ → Bool → Bool
panics_of none has_timer = false
panics_of (some timeout) true = false
panics_of (some timeout) false = true

abbrev strict : Hyper
strict = record { panics = λ builder. panics_of builder.header_read_timeout builder.has_timer }

timerless :
    (o : Option ℕ) (timer : Bool) (t : ℕ) → o ≡ some t → timer ≡ false → panics_of o timer ≡ true
timerless none timer t h off = cc
timerless (some s) true t h off = cc
timerless (some s) false t h off = refl

timed : (o : Option ℕ) (timer : Bool) → timer ≡ true → panics_of o timer ≡ false
timed none timer set = refl
timed (some s) true set = refl
timed (some s) false set = cc

strict-HyperLaws : HyperLaws strict
strict-HyperLaws = record {
  timer_missing = λ b t h off. timerless b.header_read_timeout b.has_timer t h off;
  timer_set = λ b set. timed b.header_read_timeout b.has_timer set;
}

served :
    run lenient abort events start
    ≡ record { is_running = true; active_connections = 2; handshaking = 1; serving = 1 }
unfolding run step
served = refl

run-IsLeaking_example : IsLeaking (completed events 0) (run strict unwind events start)
run-IsLeaking_example = run-IsLeaking strict strict-HyperLaws events

one_done : 0 < 1
one_done = omega arith

run-down_example : (run strict abort events start).is_running ≡ false
run-down_example = run-down strict strict-HyperLaws events one_done
