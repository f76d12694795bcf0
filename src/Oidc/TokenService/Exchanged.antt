-- ===== src/Oidc/TokenService/Exchanged.antt =====
-- The exchange of an authorization code for tokens: when it succeeds, and what it leaves behind.
use idpico.Prelude.{
  ◌≤◌, String, ◌≡◌, refl, ap, subst, ◌∙◌, true, false, some, ◌==◌, find, change_first,
  find-change_first, find-passes, List,
}
use idpico.Domain.{AuthCode, User, Client, Token, allows_grant}
use idpico.World.{Store, World}
use idpico.Exec.{ok}
use idpico.Exec.Inversion.{Same, bind-ok, check-ok, pure-ok, rethrow-ok}
use idpico.Exec.Keeps.{Keeps, Keeps-save, keeps_rules}
use idpico.Store.Fetch.{code-fetched, user-fetched}
use idpico.Store.AuthCodes.{use_up}
use idpico.Store.Tokens
use idpico.Oidc.Keeps.{generate_tokens-Keeps}
use idpico.Oidc.Types.{TokenRequest, TokenResponse}
use idpico.Oidc.Pkce.{validate_code_verifier}
use idpico.Oidc.TokenService.{TokenService}
use idpico.Oidc.TokenService.Caller.{IsAuthentic, identify_client-ok}
use idpico.Oidc.TokenService.Accepted.{accept_code-ok}
use idpico.Oidc.TokenService.Responses.{response_scope}
use idpico.Oidc.TokenService.Grant.{generate_tokens}
use idpico.Oidc.TokenService.Exchange.{active_user, handle_authorization_code}

pub active_user-ok :
    (id : String) (w : World) {u : User} {w' : World}
    → active_user id w ≡ (ok u, w')
    → (find (λ u. u.id == id) w.users ≡ some u) × (u.active ≡ true) × Same w w'
unfolding active_user
active_user-ok id w h =
    let (v, w₁, f, h₁) = bind-ok _ _ w h in
    let (found, same) = user-fetched id w (rethrow-ok _ _ w f) in
    let (_, w₂, c, h₂) = bind-ok _ _ w₁ h₁ in
    let (active, e) = check-ok _ _ w₁ c in
    let (u, e') = pure-ok v w₂ h₂ in (rw u found, rw u active, rw (← e, ← e') at same)

-- The conditions of a successful exchange, in terms of what was stored before it.
pub record Exchanged (s : TokenService) (req : TokenRequest) (w : World) (resp : TokenResponse)
    (w' : World) : Type 0 where
  pub client : Client
  pub client_stored : find (λ c. c.id == req.client_id) w.clients ≡ some client
  pub authentic : IsAuthentic s.crypto client req.client_secret
  pub allowed : allows_grant client "authorization_code" ≡ true
  pub ac : AuthCode
  pub code_stored : find (λ a. a.code == req.code) w.auth_codes ≡ some ac
  pub bound : ac.client_id ≡ req.client_id
  pub fresh : ac.used ≡ false
  pub in_time : w.now ≤ ac.expires_at
  pub redirect : ac.redirect_uri ≡ req.redirect_uri
  pub verified :
      validate_code_verifier s.crypto req.code_verifier ac.code_challenge ac.code_challenge_method
      ≡ true
  pub user : User
  pub user_stored : find (λ u. u.id == ac.user_id) w.users ≡ some user
  pub active : user.active ≡ true
  pub scope : resp.scope ≡ ac.scope
  pub spent : find (λ a. a.code == req.code) w'.auth_codes ≡ some (use_up ac)

users_of : {s t : Store} → s ≡ t → s.users ≡ t.users
users_of e = ap (λ (s : Store). s.users) e

codes_of : {s t : Store} → s ≡ t → s.auth_codes ≡ t.auth_codes
codes_of e = ap (λ (s : Store). s.auth_codes) e

spent_after :
    (code : String) (ac : AuthCode) {xs ys zs : List AuthCode}
    → find (λ a. a.code == code) xs ≡ some ac
    → ys ≡ xs
    → zs ≡ change_first (λ a. a.code == code) use_up ys
    → find (λ a. a.code == code) zs ≡ some (use_up ac)
spent_after code ac {xs} h e f =
    rw (f, e) (find-change_first _ use_up xs h (find-passes (λ a. a.code == code) xs h))

create_token-Keeps :
    (xs : List AuthCode) (t : Token) → Keeps (λ s _. s.auth_codes ≡ xs) (Tokens.create t)
unfolding Tokens.create
create_token-Keeps xs t = search (keeps_rules, Keeps-save)

-- Making tokens leaves the codes alone.
codes_after :
    (s : TokenService) (user : User) (client : Client) (ac : AuthCode) (w : World)
    {resp : TokenResponse} {w' : World}
    → generate_tokens s user client ac.scope ac.nonce ac.auth_time ac.amr w ≡ (ok resp, w')
    → w'.auth_codes ≡ w.auth_codes
codes_after s user client ac w h =
    subst (λ (v : World). v.auth_codes ≡ w.auth_codes) (ap (λ r. r.1) h)
      ((generate_tokens-Keeps (create_token-Keeps w.auth_codes) s user client ac.scope ac.nonce
          ac.auth_time ac.amr).at
        w refl)

-- An exchange succeeds only for an authenticated client that may use codes, with a stored code of
-- that client that is unused and in time, under the redirect URI and the PKCE verifier of the
-- request, for an active user; the scope is that of the code, and
-- afterwards the code is stored as used.
pub handle_authorization_code-ok :
    (s : TokenService) (req : TokenRequest) (w : World) {resp : TokenResponse} {w' : World}
    → handle_authorization_code s req w ≡ (ok resp, w')
    → Exchanged s req w resp w'
unfolding handle_authorization_code
handle_authorization_code-ok s req w h =
    let (_, w₁, c₁, h₁) = bind-ok _ _ w h in
    let (_, w₂, c₂, h₂) = bind-ok _ _ w₁ h₁ in
    let e₂ : w₂ ≡ w = (check-ok _ _ w₁ c₂).1 ∙ (check-ok _ _ w c₁).1 in
    let (client, w₃, c₃, h₃) = bind-ok _ _ w₂ h₂ in
    let i =
      identify_client-ok s req.client_id req.client_secret "authorization_code" w (rw e₂ at c₃) in
    let (ac, w₄, c₄, h₄) = bind-ok _ _ w₃ h₃ in
    let (code_stored, same₄) = code-fetched req.code w₃ (rethrow-ok _ _ w₃ c₄) in
    let (_, w₅, c₅, h₅) = bind-ok _ _ w₄ h₄ in
    let a = accept_code-ok s req ac w₄ c₅ in
    let (user, w₆, c₆, h₆) = bind-ok _ _ w₅ h₅ in
    let (user_stored, active, same₆) = active_user-ok ac.user_id w₅ c₆ in
    record {
      client = client;
      client_stored = i.found;
      authentic = i.authentic;
      allowed = i.allowed;
      ac = ac;
      code_stored = rw i.rest.auth_codes at code_stored;
      bound = a.bound;
      fresh = a.fresh;
      in_time = rw (same₄.now ∙ i.rest.now) at a.in_time;
      redirect = a.redirect;
      verified = a.verified;
      user = user;
      user_stored =
          rw (users_of a.spent.store ∙ users_of same₄.store ∙ i.rest.users) at user_stored;
      active = active;
      scope = response_scope s user client ac.scope ac.nonce ac.auth_time ac.amr w₆ h₆;
      spent =
          spent_after req.code ac code_stored (codes_of same₄.store)
            (codes_after s user client ac w₆ h₆ ∙ codes_of same₆.store ∙ codes_of a.spent.store);
    }
