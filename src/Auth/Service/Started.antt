-- ===== src/Auth/Service/Started.antt =====
-- What the start of a session leaves behind.
use idpico.Prelude.{String, ◌≡◌, refl, ap, subst, List, [], ◌∷◌, ◌++◌, In, inl, inr}
use idpico.Domain.{Time, User, Session}
use idpico.World.{Store, World}
use idpico.Exec.{Done, Result, ok, ◌>>=◌}
use idpico.Exec.Inversion.{bind-ok, rethrow-ok}
use idpico.Exec.Keeps.{Keeps, keeps_rules}
use idpico.Audit.{record_event}
use idpico.Auth.Session.{HttpRequest, SessionService, rotate_session, set_session_cookie}
use idpico.Auth.Session.Live.{create_session-stored}
use idpico.Auth.Csrf.{clear_token}
use idpico.Auth.Keeps.{set_session_cookie-Keeps, clear_token-Keeps, record_event-Keeps}
use idpico.Auth.Service.{AuthService, event_of, start_session, await_code}

-- A session of the user is stored, with how the user signed in.
pub record HasSession (user : User) (amr : List String) (w : World) : Type 0 where
  pub session : Session
  pub stored : In session w.sessions
  pub owner : session.user_id ≡ user.id
  pub methods : session.amr ≡ amr

In-last : {A : Type 0} (xs : List A) (a : A) → In a (xs ++ a ∷ [])
In-last [] a = inl refl
In-last (x ∷ xs) a = inr (In-last xs a)

rotate_session-ok :
    (s : SessionService) (old user agent ip : String) (amr : List String) (w : World)
    {session : Session} {w' : World}
    → rotate_session s old user agent ip amr w ≡ (ok session, w')
    → In session w'.sessions × (session.user_id ≡ user) × (session.amr ≡ amr)
unfolding rotate_session
rotate_session-ok s old user agent ip amr w {session} {w'} h =
    let (_, w₁, d, h₁) = bind-ok _ _ w h in
    let (e, stored, _) = create_session-stored s user agent ip amr w₁ h₁ in
    (
      rw stored (In-last w₁.sessions session),
      ap (λ (x : Session). x.user_id) e,
      ap (λ (x : Session). x.amr) e,
    )

-- After the session is stored, the rest of its start keeps it.
rest-Keeps :
    (s : AuthService) (r : HttpRequest) (user : User) (session : Session)
    → Keeps
        (λ x t. In session x.sessions)
        (set_session_cookie s.sessions session.id >>= λ _.
          clear_token s.csrf >>= λ _. record_event s.audit (event_of "login.success" user "" r))
rest-Keeps s r user session = search (
  keeps_rules,
  set_session_cookie-Keeps,
  clear_token-Keeps,
  record_event-Keeps {P = λ x t. In session x.sessions} (λ x t e i. i),
)

pub start_session-ok :
    (s : AuthService) (r : HttpRequest) (user : User) (amr : List String) (w : World) {u : Done}
    {w' : World}
    → start_session s r user amr w ≡ (ok u, w')
    → HasSession user amr w'
unfolding start_session
start_session-ok s r user amr w h =
    let (_, w₁, c, h₁) = bind-ok _ _ w h in
    let (session, w₂, q, h₂) = bind-ok _ _ w₁ h₁ in
    let (stored, owner, methods) =
      rotate_session-ok s.sessions _ user.id _ _ amr w₁ (rethrow-ok _ _ w₁ q) in
    record {
      session = session;
      stored =
          subst (λ (p : Result Done × World). In session p.1.sessions) h₂
            ((rest-Keeps s r user session).at w₂ stored);
      owner = owner;
      methods = methods;
    }

pub await_code-Keeps :
    (P : Store → Time → Type 0) (s : AuthService) (user : User) → Keeps P (await_code s user)
unfolding await_code
await_code-Keeps P s user = search (keeps_rules, clear_token-Keeps) depth 9
