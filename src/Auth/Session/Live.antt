-- ===== src/Auth/Session/Live.antt =====
-- Which sessions are live.
use idpico.Prelude.{
  find-append-none, eq_refl, ◌≤◌, String, false, ◌≡◌, sym, ap, ◌∙◌, ◌+◌, List, [], ◌∷◌, ◌++◌, some,
  ◌==◌, find, arith,
}
use idpico.Errors.{Error}
use idpico.Domain.{Time, Session, after}
use idpico.World.{World}
use idpico.Exec.{ok, raise, ignore, pure, ◌>>=◌}
use idpico.Exec.Inversion.{Same, bind-ok, clock-ok, pure-ok, require-ok, else-ok, raise-ok}
use idpico.Store.File.{sessions, load, save, load-ok}
use idpico.Store.Sessions
use idpico.Auth.Session.{
  session_cookie_name, get_at, get_session_from_request, none, HttpRequest, SessionService,
  create_session, get_session,
}

-- The session is stored under the token, and in time.
pub record IsLive (token : String) (w : World) (session : Session) : Type 0 where
  pub stored : find (λ s. s.id == token) w.sessions ≡ some session
  pub in_time : after w.now session.expires_at ≡ false

fetch-ok :
    (token : String) (w : World) {session : Session} {w' : World}
    → Sessions.get_by_id token w ≡ (ok session, w')
    → (find (λ s. s.id == token) w.sessions ≡ some session) × Same w w'
unfolding Sessions.get_by_id
fetch-ok token w h =
    let (xs, w₁, l, r) = bind-ok _ _ w h in
    let (x, same) = load-ok sessions _ w l in
    let (found, e) = require-ok _ _ w₁ r in (rw x at found, rw (← e) at same)

never_ends :
    (token : String) (e : Error) (w : World) {session : Session} {w' : World}
    → (ignore (Sessions.delete token) >>= λ _. raise e) w ≡ (ok session, w')
    → ⊥
never_ends token e w h = let (u, w₁, d, r) = bind-ok _ _ w h in raise-ok e w₁ r

pub get_session-ok :
    (token : String) (w : World) {session : Session} {w' : World}
    → get_session token w ≡ (ok session, w')
    → IsLive token w session × Same w w'
unfolding get_session
get_session-ok token w {session} {w'} h =
    let (s, w₁, f, h₁) = bind-ok _ _ w h in
    let (found, same) = fetch-ok token w f in
    let (t, w₂, c, h₂) = bind-ok _ _ w₁ h₁ in
    let (now, e) = clock-ok w₁ c in
    let (fresh, h₃) = else-ok (after t s.expires_at) _ _ w₂ (never_ends token _ w₂) h₂ in
    let (e', end) = pure-ok s w₂ h₃ in
    let live : IsLive token w s = record {
      stored = found;
      in_time = ap (λ (n : Time). after n s.expires_at) (sym (now ∙ same.now)) ∙ fresh;
    } in
    (rw e' live, rw (end, e) same)

-- A created session is stored behind the others.
pub create_session-stored :
    (s : SessionService) (user agent ip : String) (amr : List String) (w : World)
    {session : Session} {w' : World}
    → create_session s user agent ip amr w ≡ (ok session, w')
    → (session ≡ record {
      id = w.host.random w.minted;
      user_id = user;
      created_at = w.now;
      expires_at = w.now + s.session_ttl;
      user_agent = agent;
      ip_address = ip;
      amr = amr;
    })
      × (w'.sessions ≡ w.sessions ++ session ∷ [])
      × (w'.now ≡ w.now)
unfolding create_session Sessions.create load save pure ◌>>=◌
create_session-stored s user agent ip amr w h = ground arith

get_session-live :
    (token : String) (w : World) (session : Session)
    → find (λ s. s.id == token) w.sessions ≡ some session
    → after w.now session.expires_at ≡ false
    → w.faults ≡ []
    → get_session token w ≡ (ok session, w)
unfolding get_session Sessions.get_by_id load pure ◌>>=◌
get_session-live token w session found fresh quiet = ground arith

-- What is created can be read back: the session of a fresh token is what its token gives later, in a
-- world with the same sessions, as long as no more time than the lifetime has passed and no file
-- operation fails; and reading it changes nothing.
pub create_session-get_session :
    (s : SessionService) (user agent ip : String) (amr : List String) (w v : World)
    {session : Session} {w' : World}
    → create_session s user agent ip amr w ≡ (ok session, w')
    → find (λ x. x.id == w.host.random w.minted) w.sessions ≡ none
    → v.sessions ≡ w'.sessions
    → v.now ≤ w.now + s.session_ttl
    → v.faults ≡ []
    → (session.id ≡ w.host.random w.minted)
      × (session.user_id ≡ user)
      × (get_session session.id v ≡ (ok session, v))
create_session-get_session s user agent ip amr w v {session} made new kept soon quiet =
    let (e, stored, _) = create_session-stored s user agent ip amr w made in
    let named = ap (λ (x : Session). x.id) e in
    let ends = ap (λ (x : Session). x.expires_at) e in
    let absent : find (λ (x : Session). x.id == session.id) w.sessions ≡ none = rw named new in
    let found =
      find-append-none (λ (x : Session). x.id == session.id) w.sessions (session ∷ []) absent in
    let here : find (λ (x : Session). x.id == session.id) v.sessions ≡ some session =
      rw (kept, stored) (found ∙ last session) in
    (
      named,
      ap (λ (x : Session). x.user_id) e,
      get_session-live session.id v session here (in_time v.now session.expires_at (rw ends soon))
          quiet,
    )
  where
    last : (x : Session) → find (λ (y : Session). y.id == x.id) (x ∷ []) ≡ some x
    last x = ground (arith, eq_refl x.id)

    in_time : (t e : Time) → t ≤ e → after t e ≡ false
    in_time t e h = ground arith

-- The request carries the token of a live session.
pub record Carries (r : HttpRequest) (w : World) (session : Session) : Type 0 where
  pub token : String
  pub cookie : get_at r.cookies session_cookie_name ≡ some token
  pub live : IsLive token w session

pub get_session_from_request-ok :
    (r : HttpRequest) (w : World) {session : Session} {w' : World}
    → get_session_from_request r w ≡ (ok session, w')
    → Carries r w session × Same w w'
unfolding get_session_from_request
get_session_from_request-ok r w h =
    let (token, w₁, q, h₁) = bind-ok _ _ w h in
    let (cookie, e) = require-ok _ _ w q in
    let (live, same) = get_session-ok token w₁ h₁ in
    (record { token = token; cookie = cookie; live = rw e at live }, rw e at same)
