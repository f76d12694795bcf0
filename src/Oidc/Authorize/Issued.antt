-- ===== src/Oidc/Authorize/Issued.antt =====
-- What is stored when an authorization code was issued.
use idpico.Prelude.{
  ℕ, ◌+◌, String, ◌≡◌, ap, ◌∙◌, refl, false, List, [], ◌∷◌, ◌++◌, none, some, ◌==◌, eq_refl, find,
  find-append-none,
}
use idpico.Domain.{Time, AuthCode}
use idpico.World.{Store, World}
use idpico.Exec.{ok}
use idpico.Exec.Inversion.{uuid-ok, Same, bind-ok, clock-ok, pure-ok, rethrow-ok}
use idpico.Store.File.{auth_codes, load-ok, save-ok}
use idpico.Store.AuthCodes
use idpico.Oidc.Authorize.{AuthorizeRequest, create_auth_code}

-- The code carries the request, the user and the sign-in, and is stored unused.
pub record Issued (ttl : ℕ) (req : AuthorizeRequest) (user_id : String) (auth_time : Time)
    (amr : List String) (w : World) (ac : AuthCode) (w' : World) : Type 0 where
  pub client : ac.client_id ≡ req.client_id
  pub user : ac.user_id ≡ user_id
  pub redirect : ac.redirect_uri ≡ req.redirect_uri
  pub scope : ac.scope ≡ req.scope
  pub challenge : ac.code_challenge ≡ req.code_challenge
  pub method : ac.code_challenge_method ≡ req.code_challenge_method
  pub nonce : ac.nonce ≡ req.nonce
  pub at : ac.auth_time ≡ auth_time
  pub methods : ac.amr ≡ amr
  pub ends : ac.expires_at ≡ w.now + ttl
  pub fresh : ac.used ≡ false
  pub stored : find (λ a. a.code == ac.code) w'.auth_codes ≡ some (record ac { created_at = w.now })

last_lem :
    (code : AuthCode) (t now : Time)
    → t ≡ now
    → find (λ a. a.code == code.code) (record code { created_at = t } ∷ [])
      ≡ some (record code { created_at = now })
last_lem code t now e = rw e (rw (eq_refl code.code) refl)

create-ok :
    (code : AuthCode) (w : World) {w' : World}
    → find (λ a. a.code == code.code) w.auth_codes ≡ none
    → AuthCodes.create code w ≡ (ok tt, w')
    → find (λ a. a.code == code.code) w'.auth_codes ≡ some (record code { created_at = w.now })
unfolding AuthCodes.create
create-ok code w absent h =
    let (xs, w₁, l, h₁) = bind-ok _ _ w h in
    let (x, same) = load-ok auth_codes _ w l in
    let (now, w₂, q, h₂) = bind-ok _ _ w₁ h₁ in
    let (n, _) = clock-ok w₁ q in
    let p = λ (a : AuthCode). a.code == code.code in
    let added : List AuthCode = record code { created_at = now } ∷ [] in
    ap (λ (s : Store). find p s.auth_codes) (save-ok auth_codes _ w₂ h₂).store
    ∙ ap (λ ys. find p (ys ++ added)) x
    ∙ find-append-none p w.auth_codes added absent
    ∙ last_lem code now w.now (n ∙ same.now)

stored_lem :
    (code ac : AuthCode) (now : Time) (v : World) {w' : World}
    → ac ≡ code
    → find (λ a. a.code == code.code) v.auth_codes ≡ some (record code { created_at = now })
    → w' ≡ v
    → find (λ a. a.code == ac.code) w'.auth_codes ≡ some (record ac { created_at = now })
stored_lem code ac now v e h end = rw (e, end) h

-- If the identifier that the code takes is the code of no stored one, a code that was issued carries
-- the client, the redirect URI, the scope, the PKCE challenge and the nonce of the request, the user
-- and the sign-in that were given, and ends at the end of its lifetime; and it is stored, unused.
pub create_auth_code-ok :
    (ttl : ℕ) (req : AuthorizeRequest) (user_id : String) (auth_time : Time) (amr : List String)
    (w : World) {ac : AuthCode} {w' : World}
    → find (λ a. a.code == w.host.uuid w.minted) w.auth_codes ≡ none
    → create_auth_code ttl req user_id auth_time amr w ≡ (ok ac, w')
    → Issued ttl req user_id auth_time amr w ac w'
unfolding create_auth_code
create_auth_code-ok ttl req user_id auth_time amr w {ac} {w'} absent h =
    let (id, w₁, i, h₁) = bind-ok _ _ w h in
    let (now, w₂, q, h₂) = bind-ok _ _ w₁ h₁ in
    let (_, w₃, c, h₃) = bind-ok _ _ w₂ h₂ in
    let (e, end) = pure-ok _ w₃ h₃ in
    let (u, s₁) = uuid-ok w i in
    let (n, e₂) = clock-ok w₁ q in
    let same : Same w w₂ = rw (← e₂) at s₁ in
    let code : AuthCode = record {
      code = id;
      client_id = req.client_id;
      user_id = user_id;
      redirect_uri = req.redirect_uri;
      scope = req.scope;
      code_challenge = req.code_challenge;
      code_challenge_method = req.code_challenge_method;
      nonce = req.nonce;
      auth_time = auth_time;
      amr = amr;
      created_at = 0;
      expires_at = now + ttl;
      used = false;
    } in
    let new : find (λ a. a.code == id) w₂.auth_codes ≡ none =
      ap (λ (s : Store). find (λ a. a.code == id) s.auth_codes) same.store
      ∙ ap (λ k. find (λ a. a.code == k) w.auth_codes) u
      ∙ absent in
    let made = create-ok code w₂ new (rethrow-ok _ _ w₂ c) in
    record {
      client = ap (λ (a : AuthCode). a.client_id) e;
      user = ap (λ (a : AuthCode). a.user_id) e;
      redirect = ap (λ (a : AuthCode). a.redirect_uri) e;
      scope = ap (λ (a : AuthCode). a.scope) e;
      challenge = ap (λ (a : AuthCode). a.code_challenge) e;
      method = ap (λ (a : AuthCode). a.code_challenge_method) e;
      nonce = ap (λ (a : AuthCode). a.nonce) e;
      at = ap (λ (a : AuthCode). a.auth_time) e;
      methods = ap (λ (a : AuthCode). a.amr) e;
      ends = ap (λ (a : AuthCode). a.expires_at) e ∙ ap (λ t. t + ttl) (n ∙ s₁.now);
      fresh = ap (λ (a : AuthCode). a.used) e;
      stored =
          stored_lem (record code { created_at = now }) ac w.now w₃ e
            (made ∙ ap (λ t. some (record code { created_at = t })) same.now) end;
    }
