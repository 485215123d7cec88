-- ===== src/Gateway/Audit/Switch.antt =====
-- The logger of gateway/src/audit.rs, on and off, beside its task.
use app_gate.Base.{◌≡◌, refl, ap, ◌∙◌, true, List, [], ◌∷◌}
use app_gate.RustGateway.Audit
use app_gate.RustGateway.Audit.Delivery
use app_gate.RustGateway.Audit.Delivery.{report, take, elapse}
use app_gate.Gateway.Audit.{
  AuditEvent, AuditLogger, new, new_disabled, record_event, on_receive, on_tick,
}

abbrev pub Step : Type 0
Step = Delivery.Action AuditEvent

pub step : AuditLogger → Step → AuditLogger
step l (report event) = record_event event l
step l take = on_receive l
step l elapse = on_tick l

pub run : AuditLogger → List Step → AuditLogger
run l [] = l
run l (action ∷ actions) = run (step l action) actions

run_enabled :
    (l : AuditLogger) (actions : List Step)
    → l.enabled ≡ true
    → (run l actions).task ≡ Delivery.run l.task actions
unfolding run step record_event Delivery.run Delivery.step
run_enabled l [] h = refl
run_enabled l (report event ∷ actions) h =
    simp h (
      run_enabled (record l { task = Audit.record_event event l.task; enabled = true }) actions
        refl)
run_enabled l (take ∷ actions) h = run_enabled (on_receive l) actions h
run_enabled l (elapse ∷ actions) h = run_enabled (on_tick l) actions h

step_disabled : (a : Step) → step new_disabled a ≡ new_disabled
unfolding step record_event Audit.receive Audit.tick Audit.send_batch
step_disabled (report event) = refl
step_disabled take = refl
step_disabled elapse = refl

run_disabled : (actions : List Step) → run new_disabled actions ≡ new_disabled
unfolding run
run_disabled [] = refl
run_disabled (a ∷ actions) = ap (λ l. run l actions) (step_disabled a) ∙ run_disabled actions

-- A logger that is on goes through the states of its task, so it keeps and posts every event; a
-- logger that is off never holds or posts one.
pub switch_cases :
    (actions : List Step)
    → ((run new actions).task ≡ Delivery.run Audit.new actions)
      × (run new_disabled actions ≡ new_disabled)
switch_cases actions = (run_enabled new actions refl, run_disabled actions)
