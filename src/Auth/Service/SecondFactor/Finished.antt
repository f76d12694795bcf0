-- ===== src/Auth/Service/SecondFactor/Finished.antt =====
-- What the end of a pending login leaves.
use idpico.Prelude.{
  sym, arith, String, Bool, true, false, ◌≡◌, refl, ap, ◌∙◌, subst, List, some, none, ◌==◌, find,
  eq_refl,
}
use idpico.Prelude.Table.{Table, get_at, get_at-delete_at}
use idpico.Domain.{Time, User, PendingLogin}
use idpico.World.{Store, World}
use idpico.Exec.{Done, Result, ok, ◌>>=◌}
use idpico.Exec.Inversion.{bind-ok}
use idpico.Exec.Keeps.{Keeps, keeps_rules, Keeps-save}
use idpico.Exec.Pending.{KeepsPending, pending_rules}
use idpico.Store.Sessions
use idpico.Store.AuditEvents
use idpico.Audit.{Event, record_event}
use idpico.Auth.Keeps.{set_session_cookie-Keeps, clear_token-Keeps, record_event-Keeps}
use idpico.Auth.Session.{
  HttpRequest, SessionService, create_session, rotate_session, set_session_cookie,
}
use idpico.Auth.Csrf.{CsrfService, clear_token}
use idpico.Auth.Pending
use idpico.Auth.Service.{AuthService, clear_failures, start_session}
use idpico.Auth.Service.Started.{HasSession, start_session-ok}
use idpico.Auth.Service.SecondFactor.{drop_pending, finish_pending_login}
use idpico.Auth.Service.SecondFactor.Consumed.{StoredUser}

event-KeepsPending : (enabled : Bool) (e : Event) → KeepsPending (record_event enabled e)
unfolding record_event AuditEvents.append
event-KeepsPending false e = search pending_rules
event-KeepsPending true e = search pending_rules depth 12

rotate-KeepsPending :
    (s : SessionService) (old user agent ip : String) (amr : List String)
    → KeepsPending (rotate_session s old user agent ip amr)
unfolding rotate_session create_session Sessions.create Sessions.delete
rotate-KeepsPending s old user agent ip amr = search pending_rules depth 20

failures-KeepsPending : (email : String) → KeepsPending (clear_failures email)
unfolding clear_failures
failures-KeepsPending email = search pending_rules

cookie-KeepsPending :
    (s : SessionService) (token : String) → KeepsPending (set_session_cookie s token)
unfolding set_session_cookie
cookie-KeepsPending s token = search pending_rules

token-KeepsPending : (c : CsrfService) → KeepsPending (clear_token c)
unfolding clear_token
token-KeepsPending c = search pending_rules

start_session-KeepsPending :
    (s : AuthService) (r : HttpRequest) (user : User) (amr : List String)
    → KeepsPending (start_session s r user amr)
unfolding start_session
start_session-KeepsPending s r user amr =
    search
      (
        pending_rules, failures-KeepsPending, rotate-KeepsPending, cookie-KeepsPending,
        token-KeepsPending, event-KeepsPending,
      )
      depth 12

module _ (id : String) (user : User) where
  abbrev IsStored : Store → Time → Type 0
  IsStored x t = find (λ (u : User). u.id == id) x.users ≡ some user

  rotate-IsStored :
      (s : SessionService) (old owner agent ip : String) (amr : List String)
      → Keeps IsStored (rotate_session s old owner agent ip amr)
  unfolding rotate_session create_session Sessions.create Sessions.delete
  rotate-IsStored s old owner agent ip amr = search (keeps_rules, Keeps-save) depth 20

  finish-IsStored :
      (s : AuthService) (r : HttpRequest) (token : String) (owner : User) (amr : List String)
      → Keeps IsStored (finish_pending_login s r token owner amr)
  unfolding finish_pending_login drop_pending start_session clear_failures
  finish-IsStored s r token owner amr =
      search
        (
          keeps_rules,
          rotate-IsStored,
          set_session_cookie-Keeps,
          clear_token-Keeps,
          record_event-Keeps {P = IsStored} (λ x t e i. i),
        )
        depth 14

dropped_lem :
    (s : AuthService) (token : String) (w : World) {u : Done} {w' : World}
    → drop_pending s token w ≡ (ok u, w')
    → w'.memory.pending ≡ Pending.remove token w.memory.pending
unfolding drop_pending ◌>>=◌
dropped_lem s token w h = ground arith

-- The login is over: its entry is gone, and there is a session.
pub finish_pending_login-ok :
    (s : AuthService) (r : HttpRequest) (token : String) (u : User) (amr : List String) (w : World)
    {d : Done} {w' : World}
    → finish_pending_login s r token u amr w ≡ (ok d, w')
    → HasSession u amr w'
      × (get_at w'.memory.pending token ≡ none)
      × ((id : String) (user : User) → StoredUser id w user → StoredUser id w' user)
unfolding finish_pending_login Pending.remove
finish_pending_login-ok s r token u amr w {w' = w'} h =
    let (_, w₁, q, g) = bind-ok _ _ w h in
    let rest : w'.memory.pending ≡ w₁.memory.pending =
      ap (λ (p : Result Done × World). p.1.memory.pending) (sym g)
      ∙ (start_session-KeepsPending s r u amr).at w₁ in
    (
      start_session-ok s r u amr w₁ g,
      ap (λ (rows : Table PendingLogin). get_at rows token) (rest ∙ dropped_lem s token w q)
          ∙ (get_at-delete_at w.memory.pending token token ∙ rw (eq_refl token) refl),
      λ id user stored.
          subst (λ (p : Result Done × World). StoredUser id p.1 user) h
            ((finish-IsStored id user s r token u amr).at w stored),
    )
