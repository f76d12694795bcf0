-- ===== src/Oidc/History/TokenOnce.antt =====
-- A refresh token is used at most once, whatever is requested and whatever fails.
use idpico.Prelude.{
  first_is-find, ◌≤◌, String, ◌≡◌, refl, subst, Bool, true, false, List, ◌==◌, eq_iff,
}
use idpico.World.{World}
use idpico.Exec.{Result, ok, err, ◌>>=◌}
use idpico.Exec.Keeps.{Keeps, keeps_rules}
use idpico.Oidc.Types.{TokenRequest, TokenResponse}
use idpico.Oidc.TokenService.{TokenService}
use idpico.Oidc.TokenService.Refresh.{handle_refresh_token}
use idpico.Oidc.TokenService.Refreshed.{handle_refresh_token-ok}
use idpico.Oidc.Retired.{has_id, IsRetired, IsRetired-Survives}
use idpico.Oidc.Keeps.Endpoints.{
  handle_authorization_code-Keeps, handle_refresh_token-Keeps, handle_revocation-Keeps,
  introspect-Keeps, create_auth_code-Keeps,
}
use idpico.Oidc.History.Once.{Gives, nothing, one, OnceOnly, total-le-one}
use idpico.Oidc.History.{
  Request, authorize, exchange, refresh, revocation, introspection, Event, serve, renews, total,
}

serve-IsRetired : (id : String) (s : TokenService) (r : Request) → Keeps (IsRetired id) (serve s r)
unfolding serve
serve-IsRetired id s (authorize ttl req user at amr) =
    search (keeps_rules, create_auth_code-Keeps (IsRetired-Survives id))
serve-IsRetired id s (exchange req) =
    search (keeps_rules, handle_authorization_code-Keeps (IsRetired-Survives id))
serve-IsRetired id s (refresh req) =
    search (keeps_rules, handle_refresh_token-Keeps (IsRetired-Survives id))
serve-IsRetired id s (revocation req) =
    search (keeps_rules, handle_revocation-Keeps (IsRetired-Survives id))
serve-IsRetired id s (introspection req) =
    search (keeps_rules, introspect-Keeps (IsRetired-Survives id))

-- Once a token is revoked, no refresh with it succeeds.
refresh_of_retired :
    (s : TokenService) (req : TokenRequest) (w : World) {resp : TokenResponse} {w' : World}
    → IsRetired req.refresh_token w.store w.now
    → handle_refresh_token s req w ≡ (ok resp, w')
    → ⊥
refresh_of_retired s req w h e =
    let x = handle_refresh_token-ok s req w e in
    cc
      (h, first_is-find (has_id req.refresh_token) (λ t. t.revoked) w.tokens x.token_stored, x.live)

-- A successful refresh revokes its token.
refresh_retires :
    (s : TokenService) (req : TokenRequest) (w : World) {resp : TokenResponse} {w' : World}
    → handle_refresh_token s req w ≡ (ok resp, w')
    → IsRetired req.refresh_token w'.store w'.now
refresh_retires s req w {w' = w'} e =
    let x = handle_refresh_token-ok s req w e in
    first_is-find (has_id req.refresh_token) (λ t. t.revoked) w'.tokens x.retired

refresh-Gives :
    (id : String) (s : TokenService) (req : TokenRequest) (w : World)
    (r : Result TokenResponse × World)
    → handle_refresh_token s req w ≡ r
    → (b : Bool) → (req.refresh_token == id) ≡ b
    → let q = serve s (refresh req) w in Gives (IsRetired id) (renews id (refresh req) q.0) q.1
unfolding serve ◌>>=◌
refresh-Gives id s req w (err x, w') e b t = nothing (rw e refl)
refresh-Gives id s req w (ok resp, w') e false t = nothing (rw (e, t) refl)
refresh-Gives id s req w (ok resp, w') e true t =
    one (rw (e, t) refl) (
      rw e
        (subst (λ c. IsRetired c w'.store w'.now) ((eq_iff _ _).0 t) (refresh_retires s req w e)))

serve-Gives :
    (id : String) (s : TokenService) (r : Request) (w : World)
    → let q = serve s r w in Gives (IsRetired id) (renews id r q.0) q.1
serve-Gives id s (authorize ttl req user at amr) w = nothing refl
serve-Gives id s (refresh req) w =
    refresh-Gives id s req w (handle_refresh_token s req w) refl (req.refresh_token == id) refl
serve-Gives id s (exchange req) w = nothing refl
serve-Gives id s (revocation req) w = nothing refl
serve-Gives id s (introspection req) w = nothing refl

refresh_no_tokens :
    (id : String) (s : TokenService) (req : TokenRequest) (w : World)
    (r : Result TokenResponse × World)
    → IsRetired id w.store w.now
    → handle_refresh_token s req w ≡ r
    → (b : Bool) → (req.refresh_token == id) ≡ b
    → renews id (refresh req) (serve s (refresh req) w).0 ≡ 0
unfolding serve ◌>>=◌
refresh_no_tokens id s req w (err x, w') h e b t = rw e refl
refresh_no_tokens id s req w (ok resp, w') h e false t = rw (e, t) refl
refresh_no_tokens id s req w (ok resp, w') h e true t =
    absurd (refresh_of_retired s req w (rw ((eq_iff _ _).0 t) h) e)

-- A token that is revoked gives nothing more.
serve_no_tokens :
    (id : String) (s : TokenService) (r : Request) (w : World)
    → IsRetired id w.store w.now
    → renews id r (serve s r w).0 ≡ 0
serve_no_tokens id s (refresh req) w h =
    refresh_no_tokens id s req w (handle_refresh_token s req w) h refl (req.refresh_token == id)
      refl
serve_no_tokens id s (authorize ttl req user at amr) w h = refl
serve_no_tokens id s (exchange req) w h = refl
serve_no_tokens id s (revocation req) w h = refl
serve_no_tokens id s (introspection req) w h = refl

token_OnceOnly : (s : TokenService) (id : String) → OnceOnly s (renews id) (IsRetired id)
token_OnceOnly s id = record {
  gives = serve-Gives id s;
  gives_none = serve_no_tokens id s;
  keeps = serve-IsRetired id s;
  lasts = λ e w h. h;
}

-- In any history of requests to the authorization, token, revocation and introspection endpoints,
-- in any order, with any reads and writes failing, tokens are handed out for one refresh token at
-- most once.
pub renewals-le-one :
    (s : TokenService) (id : String) (es : List Event) (w : World) → total s (renews id) es w ≤ 1
renewals-le-one s id = total-le-one (token_OnceOnly s id)
