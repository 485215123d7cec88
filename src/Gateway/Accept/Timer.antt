-- ===== src/Gateway/Accept/Timer.antt =====
-- The connection builder of gateway/src/server.rs under hyper's documentation: a builder with a
-- header timeout and without a timer panics.
use mathlib.Core.Path.{subst}
use app_gate.Base.{
  ℕ, zero, suc, ◌+◌, ◌<◌, ◌≡◌, refl, sym, ap, ◌∙◌, true, false, List, [], ◌∷◌, arith, if◌then◌else◌,
}
use app_gate.Base.Hyper.{Hyper, HyperLaws}
use app_gate.Gateway.Accept.{
  connection_builder, unwind, abort, on_panic, fetch_sub, on_event, PanicStrategy, Server, start,
  Event, accepted, accept_failed, handshake_failed, handshake_done, finished, step, run,
}

-- The connections whose handshake succeeds in a run, from a number of handshakes that are open.
abbrev pub completed : List Event → ℕ → ℕ
completed [] open_handshakes = 0
completed (accepted ∷ es) n = completed es (n + 1)
completed (accept_failed ∷ es) n = completed es n
completed (handshake_failed ∷ es) zero = completed es zero
completed (handshake_failed ∷ es) (suc n) = completed es n
completed (handshake_done ∷ es) zero = completed es zero
completed (handshake_done ∷ es) (suc n) = completed es n + 1
completed (finished ∷ es) n = completed es n

-- The counter has lost some connections, and none is served.
pub record IsLeaking (lost : ℕ) (s : Server) : Type 0 where
  pub running : s.is_running ≡ true
  pub unserved : s.serving ≡ 0
  pub counted : s.active_connections ≡ s.handshaking + lost

fetch_sub-counted : (a n : ℕ) → a ≡ suc n → fetch_sub a ≡ n
fetch_sub-counted zero n h = omega (arith, h)
fetch_sub-counted (suc a) n h = omega (arith, h)

abbrev at : ℕ → ℕ → Server
at a h = record { is_running = true; active_connections = a; handshaking = h; serving = 0 }

module _ (hyper : Hyper) (laws : HyperLaws hyper) where
  panics-builder : hyper.panics connection_builder ≡ true
  panics-builder = laws.timer_missing connection_builder 10 refl refl

  step-done :
      (strategy : PanicStrategy) (a h : ℕ)
      → step hyper strategy handshake_done (at a (suc h)) ≡ on_panic strategy h (at a (suc h))
  unfolding step
  step-done strategy a h = simp (panics-builder) refl

  leaks_at :
      (es : List Event) (a h lost : ℕ)
      → a ≡ h + lost
      → IsLeaking (completed es h + lost) (run hyper unwind es (at a h))
  unfolding run step
  leaks_at [] a h lost e = record { running = refl; unserved = refl; counted = omega (arith, e) }
  leaks_at (accepted ∷ es) a h lost e = leaks_at es (a + 1) (h + 1) lost (omega (arith, e))
  leaks_at (accept_failed ∷ es) a h lost e = leaks_at es a h lost e
  leaks_at (handshake_failed ∷ es) a zero lost e = leaks_at es a zero lost e
  leaks_at (handshake_failed ∷ es) a (suc h) lost e =
      leaks_at es (fetch_sub a) h lost (fetch_sub-counted a (h + lost) (omega (arith, e)))
  leaks_at (handshake_done ∷ es) a zero lost e = leaks_at es a zero lost e
  leaks_at (handshake_done ∷ es) a (suc h) lost e =
      let rest = leaks_at es a h (lost + 1) (omega (arith, e)) in
      let moved = ap (run hyper unwind es) (step-done unwind a h) in
      subst (IsLeaking (completed es h + 1 + lost)) (sym moved)
        (subst (λ n. IsLeaking n (run hyper unwind es (at a h))) (omega arith) rest)
  leaks_at (finished ∷ es) a h lost e = leaks_at es a h lost e

  -- With hyper's documented panic, and panics that unwind, no connection is ever served: after any
  -- sequence of events the counter is the number of open handshakes and of all the handshakes that
  -- succeeded.
  pub run-IsLeaking : (es : List Event) → IsLeaking (completed es 0) (run hyper unwind es start)
  run-IsLeaking es =
      subst (λ n. IsLeaking n (run hyper unwind es start)) (omega arith) (leaks_at es 0 0 0 refl)

  stays_down :
      (es : List Event) (s : Server)
      → s.is_running ≡ false
      → (run hyper abort es s).is_running ≡ false
  unfolding run step
  stays_down [] s down = down
  stays_down (e ∷ es) s down =
      subst
        (λ r. (run hyper abort es (if r then on_event hyper abort e s else s)).is_running ≡ false)
        (sym down) (stays_down es s down)

  down_at :
      (es : List Event) (a h : ℕ)
      → 0 < completed es h
      → (run hyper abort es (at a h)).is_running ≡ false
  unfolding run step
  down_at [] a h some_done = absurd (omega (arith, some_done))
  down_at (accepted ∷ es) a h some_done = down_at es (a + 1) (h + 1) some_done
  down_at (accept_failed ∷ es) a h some_done = down_at es a h some_done
  down_at (handshake_failed ∷ es) a zero some_done = down_at es a zero some_done
  down_at (handshake_failed ∷ es) a (suc h) some_done = down_at es (fetch_sub a) h some_done
  down_at (handshake_done ∷ es) a zero some_done = down_at es a zero some_done
  down_at (handshake_done ∷ es) a (suc h) some_done =
      ap (λ s. (run hyper abort es s).is_running) (step-done abort a h)
      ∙ stays_down es (on_panic abort h (at a (suc h))) refl
  down_at (finished ∷ es) a h some_done = down_at es a h some_done

  -- With hyper's documented panic, and panics that abort, the process has ended after any sequence
  -- of events in which a handshake succeeded.
  pub run-down :
      (es : List Event) → 0 < completed es 0 → (run hyper abort es start).is_running ≡ false
  run-down es some_done = down_at es 0 0 some_done
