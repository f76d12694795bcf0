-- ===== src/Oidc/TokenService/Refreshed.antt =====
-- The use of a refresh token: when it succeeds, and what it leaves behind.
use idpico.Prelude.{
  ℕ, ◌≤◌, String, ◌≡◌, ap, subst, ◌∙◌, ◌⊎◌, true, false, not, List, [], some, ◌==◌, eq_iff, find,
  change_first, find-change_first, find-passes, arith, if◌then◌else◌, ◌&&◌, find-append-some, ◌∷◌,
  sym,
}
use idpico.Errors.{Error, is_code, code_conflict, wrapped}
use idpico.Domain.{Token, User, Client, Time, is_expired, is_valid, allows_grant}
use idpico.World.{Store, World}
use idpico.Exec.{Done, ok, pure, raise, ◌>>=◌}
use idpico.Exec.Inversion.{
  bind-ok, check-ok, pure-ok, clock-ok, raise-ok, rethrow-ok, else-ok, branch-ok,
}
use idpico.Exec.Keeps.{Keeps}
use idpico.Store.File.{load, save}
use idpico.Oidc.TokenService.Responses.{response_scope}
use idpico.Store.Fetch.{token-fetched, rotate-ok}
use idpico.Store.Tokens
use idpico.Store.Tokens.{retire}
use idpico.Oidc.Types.{TokenRequest, TokenResponse}
use idpico.Oidc.Scope.{scope_subset}
use idpico.Oidc.Keeps.{generate_tokens-Keeps}
use idpico.Oidc.TokenService.{TokenService}
use idpico.Oidc.TokenService.Caller.{IsAuthentic, identify_client-ok}
use idpico.Oidc.TokenService.Exchanged.{active_user-ok}
use idpico.Oidc.TokenService.Grant.{generate_tokens}
use idpico.Oidc.TokenService.Refresh.{
  token_reused, accept_token, narrowed_scope, retire_token, handle_refresh_token,
}

token_reused_fails :
    (s : TokenService) (t : Token) (w : World) {u : Done} {w' : World}
    → token_reused s t w ≡ (ok u, w')
    → ⊥
unfolding token_reused
token_reused_fails s t w h = let (_, w₁, _, r) = bind-ok _ _ w h in raise-ok _ w₁ r

retire_token-ok :
    (s : TokenService) (id : String) (t : Token) (w : World) {u : Done} {w' : World}
    → retire_token s id t w ≡ (ok u, w')
    → Tokens.rotate id w ≡ (ok u, w')
unfolding retire_token
retire_token-ok s id t w {u} {w'} h =
    let (v, w₁, m, p) = branch-ok (Tokens.rotate id) pure _ w (refused w') h in
    let (_, end) = pure-ok v w₁ p in rw end m
  where
    refused :
        (w' : World) (e : Error) (v : World)
        → (if is_code e code_conflict
              then token_reused s t
              else raise (wrapped "failed to rotate old token" e))
            v
          ≡ (ok u, w')
        → ⊥
    refused w' e v g =
        raise-ok _ v (else-ok (is_code e code_conflict) _ _ v (token_reused_fails s t v) g).1

valid_lem :
    (now : ℕ) (t : Token) → is_valid now t ≡ true → (now ≤ t.expires_at) × (t.revoked ≡ false)
valid_lem now t h = ground arith

-- The token is the client's, not retired and in time; nothing changes.
accept_token-ok :
    (s : TokenService) (req : TokenRequest) (t : Token) (w : World) {u : Done} {w' : World}
    → accept_token s req t w ≡ (ok u, w')
    → (t.client_id ≡ req.client_id) × (w.now ≤ t.expires_at) × (t.revoked ≡ false) × (w' ≡ w)
unfolding accept_token
accept_token-ok s req t w h =
    let (_, w₁, c₁, h₁) = bind-ok _ _ w h in
    let (bound, e₁) = check-ok _ _ w c₁ in
    let (now, w₂, c₂, h₂) = bind-ok _ _ w₁ h₁ in
    let (instant, e₂) = clock-ok w₁ c₂ in
    let (_, w₃, c₃, h₃) = bind-ok _ _ w₂ h₂ in
    let (_, q) =
      else-ok (t.revoked && not (is_expired now t.expires_at)) _ _ w₂ (token_reused_fails s t w₂)
        c₃ in
    let (_, e₃) = pure-ok tt w₂ q in
    let (valid, e₄) = check-ok _ _ w₃ h₃ in
    let (in_time, live) =
      valid_lem w.now t
        (subst (λ n. is_valid n t ≡ true) (instant ∙ ap (λ (v : World). v.now) e₁) valid) in
    ((eq_iff _ _).0 bound, in_time, live, e₄ ∙ e₃ ∙ e₂ ∙ e₁)

-- The new scope is that of the token, or a part of it.
abbrev Narrows : String → String → String → Type 0
Narrows requested granted scope =
    ((requested ≡ "") × (scope ≡ granted))
    ⊎ ((scope ≡ requested) × (scope_subset requested granted ≡ true))

narrowed_scope-ok :
    (requested granted : String) (w : World) {scope : String} {w' : World}
    → narrowed_scope requested granted w ≡ (ok scope, w')
    → Narrows requested granted scope × (w' ≡ w)
unfolding narrowed_scope ◌>>=◌
narrowed_scope-ok requested granted w h = ground (arith, eq_iff requested "")

create_token-Keeps :
    (id : String) (x t : Token)
    → Keeps (λ s _. find (λ t. t.id == id) s.tokens ≡ some x) (Tokens.create t)
unfolding Tokens.create load save ◌>>=◌
create_token-Keeps id x t = record {
  at = λ w h. ground (
    arith,
    find-append-some (λ t. t.id == id) w.tokens (record t { created_at = w.now } ∷ []) {a = x} h,
  );
}

tokens_of : {s t : Store} → s ≡ t → s.tokens ≡ t.tokens
tokens_of e = ap (λ (s : Store). s.tokens) e

retired_after :
    (id : String) (t : Token) {xs ys zs : List Token}
    → find (λ t. t.id == id) xs ≡ some t
    → ys ≡ xs
    → zs ≡ change_first (λ t. t.id == id) retire ys
    → find (λ t. t.id == id) zs ≡ some (retire t)
retired_after id t {xs} h e f =
    rw (f, e) (find-change_first _ retire xs h (find-passes (λ t. t.id == id) xs h))

retired_for_good :
    (s : TokenService) (id : String) (x : Token) (user : User) (client : Client)
    (scope nonce : String) (at : Time) (amr : List String) (w : World) {resp : TokenResponse}
    {w' : World}
    → find (λ t. t.id == id) w.tokens ≡ some x
    → generate_tokens s user client scope nonce at amr w ≡ (ok resp, w')
    → find (λ t. t.id == id) w'.tokens ≡ some x
retired_for_good s id x user client scope nonce at amr w h e =
    subst (λ (v : World). find (λ t. t.id == id) v.tokens ≡ some x) (ap (λ r. r.1) e)
      ((generate_tokens-Keeps (create_token-Keeps id x) s user client scope nonce at amr).at w h)

-- The conditions of a successful refresh, in terms of what was stored before it.
pub record Refreshed (s : TokenService) (req : TokenRequest) (w : World) (resp : TokenResponse)
    (w' : World) : Type 0 where
  pub client : Client
  pub client_stored : find (λ c. c.id == req.client_id) w.clients ≡ some client
  pub authentic : IsAuthentic s.crypto client req.client_secret
  pub allowed : allows_grant client "refresh_token" ≡ true
  pub token : Token
  pub token_stored : find (λ t. t.id == req.refresh_token) w.tokens ≡ some token
  pub bound : token.client_id ≡ req.client_id
  pub live : token.revoked ≡ false
  pub in_time : w.now ≤ token.expires_at
  pub user : User
  pub user_stored : find (λ u. u.id == token.user_id) w.users ≡ some user
  pub active : user.active ≡ true
  pub narrows : Narrows req.scope token.scope resp.scope
  pub retired : find (λ t. t.id == req.refresh_token) w'.tokens ≡ some (retire token)

-- A refresh succeeds only for an authenticated client that may refresh, with a stored token of that
-- client that is not revoked and in time, for an active user, and for the scope of the token or a
-- part of it; and afterwards the token is stored as revoked.
pub handle_refresh_token-ok :
    (s : TokenService) (req : TokenRequest) (w : World) {resp : TokenResponse} {w' : World}
    → handle_refresh_token s req w ≡ (ok resp, w')
    → Refreshed s req w resp w'
unfolding handle_refresh_token
handle_refresh_token-ok s req w h =
    let (_, w₁, c₁, h₁) = bind-ok _ _ w h in
    let e₁ : w₁ ≡ w = (check-ok _ _ w c₁).1 in
    let (client, w₂, c₂, h₂) = bind-ok _ _ w₁ h₁ in
    let i = identify_client-ok s req.client_id req.client_secret "refresh_token" w (rw e₁ at c₂) in
    let (t, w₃, c₃, h₃) = bind-ok _ _ w₂ h₂ in
    let (stored, same₃) = token-fetched req.refresh_token w₂ (rethrow-ok _ _ w₂ c₃) in
    let (_, w₄, c₄, h₄) = bind-ok _ _ w₃ h₃ in
    let (bound, in_time, live, e₄) = accept_token-ok s req t w₃ c₄ in
    let (user, w₅, c₅, h₅) = bind-ok _ _ w₄ h₄ in
    let (user_stored, active, same₅) = active_user-ok t.user_id w₄ c₅ in
    let (scope, w₆, c₆, h₆) = bind-ok _ _ w₅ h₅ in
    let (narrows, e₆) = narrowed_scope-ok req.scope t.scope w₅ c₆ in
    let (_, w₇, c₇, h₇) = bind-ok _ _ w₆ h₆ in
    let (_, _, _, wrote) = rotate-ok req.refresh_token w₆ (retire_token-ok s _ t w₆ c₇) in
    record {
      client = client;
      client_stored = i.found;
      authentic = i.authentic;
      allowed = i.allowed;
      token = t;
      token_stored = rw i.rest.tokens at stored;
      bound = bound;
      live = live;
      in_time = rw (same₃.now ∙ i.rest.now) at in_time;
      user = user;
      user_stored =
          rw
            (ap (λ (v : World). v.users) e₄
              ∙ ap (λ (s : Store). s.users) same₃.store
              ∙ i.rest.users)
            at user_stored;
      active = active;
      narrows =
          subst (Narrows req.scope t.scope) (sym (response_scope s user client scope "" 0 [] w₇ h₇))
            narrows;
      retired =
          retired_for_good s req.refresh_token (retire t) user client scope "" 0 [] w₇
            (retired_after req.refresh_token t stored
              (ap (λ (v : World). v.tokens) e₆
                ∙ tokens_of same₅.store
                ∙ ap (λ (v : World). v.tokens) e₄
                ∙ tokens_of same₃.store)
              (tokens_of wrote.store))
            h₇;
    }
