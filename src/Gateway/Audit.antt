-- ===== src/Gateway/Audit.antt =====
-- gateway/src/audit.rs: the events of the control-plane gateway, and a logger that can be off. The
-- task and its batches are those of RustGateway/Audit.antt.
pub mod Switch
mod Tests
use app_gate.Base.{ℕ, String, Bool, true, false, not, Option, List, [], ◌∷◌, ◌++◌, if◌then◌else◌}
use app_gate.RustGateway.Audit
use app_gate.RustGateway.Audit.{receive, tick}

pub record Actor : Type 0 where
  pub id : String
  pub type_of : String
  pub roles : List String
  pub tenant_id : Option String

pub record Action : Type 0 where
  pub name : String
  pub type_of : String

pub record Resource : Type 0 where
  pub type_of : String
  pub name : String
  pub provider : String
  pub model : String

pub record ResultDetails : Type 0 where
  pub status : String
  pub reason : String
  pub policy_id : Option String

pub record AuditEvent : Type 0 where
  pub event_type : String
  pub event_time : String
  pub severity : ℕ
  pub actor : Actor
  pub action : Action
  pub resource : Resource
  pub result : ResultDetails
  pub correlation_id : String
  pub metadata : List (String × String)

pub record AuditLogger : Type 0 where
  pub task : Audit.AuditLogger AuditEvent
  pub enabled : Bool

abbrev pub new : AuditLogger
new = record { task = Audit.new; enabled = true }

-- The receiver is dropped at once, and no task runs.
abbrev pub new_disabled : AuditLogger
new_disabled = record { task = record Audit.new { is_open = false }; enabled = false }

unfoldable pub record_event : AuditEvent → AuditLogger → AuditLogger
record_event event l =
    if not l.enabled then l else record l { task = Audit.record_event event l.task }

-- The two arms of the task's loop.
abbrev pub on_receive : AuditLogger → AuditLogger
on_receive l = record l { task = receive l.task }

abbrev pub on_tick : AuditLogger → AuditLogger
on_tick l = record l { task = tick l.task }
