-- ===== src/Auth/Keeps.antt =====
-- What an audit event and the cookies leave alone.
use idpico.Prelude.{String, Bool, true, false}
use idpico.World.{Store}
use idpico.Domain.{Time}
use idpico.Exec.Keeps.{Keeps, keeps_rules, Keeps-save}
use idpico.Store.File.{audit_events}
use idpico.Store.AuditEvents
use idpico.Audit.{Event, record_event}
use idpico.Oidc.Keeps.{Ignores}
use idpico.Auth.Session.{SessionService, set_session_cookie}
use idpico.Auth.Csrf.{CsrfService, clear_token}

module _ {P : Store → Time → Type 0} where
  pub record_event-Keeps :
      Ignores P audit_events → (enabled : Bool) (e : Event) → Keeps P (record_event enabled e)
  unfolding record_event AuditEvents.append
  record_event-Keeps on_audit false e = search keeps_rules
  record_event-Keeps on_audit true e = search (keeps_rules, Keeps-save, on_audit) depth 12

  pub set_session_cookie-Keeps :
      (s : SessionService) (token : String) → Keeps P (set_session_cookie s token)
  unfolding set_session_cookie
  set_session_cookie-Keeps s token = search keeps_rules

  pub clear_token-Keeps : (s : CsrfService) → Keeps P (clear_token s)
  unfolding clear_token
  clear_token-Keeps s = search keeps_rules
