-- ===== src/Gateway/Audit/Tests.antt =====
-- One event, with the logger on and off.
use app_gate.Base.{none, []}
use app_gate.Gateway.Audit.{AuditEvent}

abbrev login : AuditEvent
login = record {
  event_type = "auth";
  event_time = "2026-01-01T00:00:00Z";
  severity = 3;
  actor = record { id = "u1"; type_of = "user"; roles = []; tenant_id = none };
  action = record { name = "login"; type_of = "auth" };
  resource = record { type_of = "gateway"; name = "g"; provider = ""; model = "" };
  result = record { status = "allowed"; reason = ""; policy_id = none };
  correlation_id = "c1";
  metadata = [];
}
