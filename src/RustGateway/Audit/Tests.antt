-- ===== src/RustGateway/Audit/Tests.antt =====
-- The logger over events that are numbers, and the theorems at it.
use app_gate.Base.{ℕ, ◌≡◌, refl, true, List, [], ◌∷◌, flatten, length}
use app_gate.RustGateway.Audit.{record_event, receive, tick, send_batch, new}
use app_gate.RustGateway.Audit.Delivery.{
  Action, report, take, elapse, step, run, reported, events, IsValid, run_conserves,
}
use app_gate.RustGateway.Audit.Drain.{drain, drain_posts}

abbrev actions : List (Action ℕ)
actions = report 1 ∷ report 2 ∷ take ∷ elapse ∷ report 3 ∷ take ∷ report 4 ∷ []

-- One batch of one event has gone out.
mid_run :
    run new actions
    ≡ record { channel = 3 ∷ 4 ∷ []; is_open = true; batch = 2 ∷ []; posted = (1 ∷ []) ∷ [] }
unfolding run step record_event receive tick send_batch
mid_run = refl

run_conserves_example : IsValid (run new actions) × (events (run new actions) ≡ reported actions)
run_conserves_example = run_conserves actions

drain_posts_example :
    flatten (run (run new actions) (drain (length (run new actions).channel))).posted
    ≡ events (run new actions)
drain_posts_example = drain_posts (run new actions) (run_conserves actions).0
