-- ===== src/Audit.antt =====
-- internal/audit/audit.go: what happened, who did it, and from where.
use idpico.Prelude.{String, Bool, true, false, Option, none, some, split_last}
use idpico.Domain.{User, AuditEvent}
use idpico.Exec.{Exec, Done, pure, ignore}
use idpico.Store.AuditEvents

pub record Event : Type 0 where
  pub actor : Option User
  pub actor_email : String
  pub action : String
  pub target_type : String
  pub target_id : String
  pub detail : String
  pub ip : String

abbrev actor_id_of : Option User → String
actor_id_of none = ""
actor_id_of (some user) = user.id

abbrev actor_email_of : Option User → String → String
actor_email_of none email = email
actor_email_of (some user) email = user.email

-- Before the repository fills in the identifier and the time, both are empty.
abbrev audit_event : Event → AuditEvent
audit_event e = record {
  id = "";
  at = 0;
  actor_id = actor_id_of e.actor;
  actor_email = actor_email_of e.actor e.actor_email;
  action = e.action;
  target_type = e.target_type;
  target_id = e.target_id;
  detail = e.detail;
  ip = e.ip;
}

-- `false` is a nil `*Recorder`. A failure is logged and dropped.
unfoldable pub record_event : Bool → Event → Exec Done
record_event false e = pure tt
record_event true e = ignore (AuditEvents.append (audit_event e))

abbrev front_or_all : String → Option (String × String) → String
front_or_all addr none = addr
front_or_all addr (some (front, port)) = front

-- `ClientIP`: the address without what stands behind its last colon.
pub client_ip : String → String
client_ip addr = front_or_all addr (split_last 58 addr)
