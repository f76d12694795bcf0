-- ===== src/Store/AuditEvents.antt =====
-- `auditRepository` of internal/store/file/audit.go.
use idpico.Prelude.{ℕ, zero, suc, not, List, [], ◌∷◌, ◌++◌, ◌==◌, eqb, ltb, keep, if◌then◌else◌}
use idpico.Prelude.Int.{ℤ, pos, negsuc}
use idpico.Domain.{Time, AuditEvent}
use idpico.Exec.{Exec, Done, pure, clock, new_uuid, ◌>>=◌}
use idpico.Store.File.{audit_events, load, save}
use idpico.Store.Sort.{newest_first}

unfoldable pub append : AuditEvent → Exec Done
append e = do
  found ← load audit_events "failed to load audit events"
  id ← if e.id == "" then new_uuid else pure e.id
  now ← clock
  let at = if eqb e.at 0 then now else e.at
  save audit_events (found ++ record e { id = id; at = at } ∷ [])

first_events : ℕ → List AuditEvent → List AuditEvent
first_events zero events = []
first_events (suc n) [] = []
first_events (suc n) (e ∷ events) = e ∷ first_events n events

-- `if limit <= 0 { limit = 100 }`
abbrev limit_of : ℤ → ℕ
limit_of (pos n) = if eqb n 0 then 100 else n
limit_of (negsuc n) = 100

list : ℤ → Exec (List AuditEvent)
unfolding first_events
list limit = do
  found ← load audit_events "failed to load audit events"
  pure (first_events (limit_of limit) (newest_first (λ e. e.at) found))

unfoldable pub delete_before : Time → Exec Done
delete_before cutoff = do
  found ← load audit_events "failed to load audit events"
  save audit_events (keep (λ e. not (ltb e.at cutoff)) found)
