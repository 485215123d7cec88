-- ===== src/RustGateway/Audit.antt =====
-- rust-gateway/src/audit.rs: the channel and the task that posts the events in batches. The
-- outcome of a post is only logged, so it is no part of the state. The loop is written once, for
-- events of any type: gateway/src/audit.rs has the same one.
pub mod Delivery
pub mod Drain
mod Tests
use app_gate.Base.{
  ℕ, String, Bool, true, Option, none, some, List, [], ◌∷◌, ◌++◌, ◌+++◌, length, leb,
  trim_end_matches, if◌then◌else◌,
}

pub record AuditEvent : Type 0 where
  pub event_type : String
  pub actor_id : String
  pub action : String
  pub resource : String
  pub result : String
  pub correlation_id : String
  pub source : String
  pub metadata : List (String × String)

-- The channel with what the task has not received, the task's batch, and the bodies of its
-- requests in the order it sent them.
pub record AuditLogger (A : Type 0) : Type 0 where
  pub channel : List A
  pub is_open : Bool
  pub batch : List A
  pub posted : List (List A)

-- `control_plane_url` is the value of `APPGATE_CONTROL_PLANE_URL`.
abbrev control_plane_or_default : Option String → String
control_plane_or_default none = "http://appgate-control-plane:8080"
control_plane_or_default (some url) = url

unfoldable pub endpoint : Option String → String
endpoint control_plane_url =
    trim_end_matches b'/' (control_plane_or_default control_plane_url) +++ "/v1/audit/batch"

module _ {A : Type 0} where
  -- `AuditLogger::record`
  unfoldable pub record_event : A → AuditLogger A → AuditLogger A
  record_event event l = if l.is_open then record l { channel = l.channel ++ event ∷ [] } else l

  unfoldable pub send_batch : List A → List (List A) → List (List A)
  send_batch [] posted = posted
  send_batch (event ∷ batch) posted = posted ++ (event ∷ batch) ∷ []

  -- The arm that receives an event; it waits while the channel is empty.
  abbrev received : List A → AuditLogger A → AuditLogger A
  received [] l = l
  received (event ∷ rest) l =
      let batch = l.batch ++ event ∷ [] in
      if leb 100 (length batch)
      then record l { channel = rest; batch = []; posted = send_batch batch l.posted }
      else record l { channel = rest; batch = batch }

  unfoldable pub receive : AuditLogger A → AuditLogger A
  unfolding send_batch
  receive l = received l.channel l

  -- The arm of the five-second interval.
  unfoldable pub tick : AuditLogger A → AuditLogger A
  unfolding send_batch
  tick l = record l { batch = []; posted = send_batch l.batch l.posted }

abbrev pub new : {A : Type 0} → AuditLogger A
new = record { channel = []; is_open = true; batch = []; posted = [] }
