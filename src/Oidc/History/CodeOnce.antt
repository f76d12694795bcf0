-- ===== src/Oidc/History/CodeOnce.antt =====
-- An authorization code is redeemed at most once, whatever is requested and whatever fails.
use idpico.Prelude.{
  first_is-change_first, first_is-append, first_is-find, first_is, ◌≤◌, String, ◌≡◌, refl, subst,
  Bool, true, false, List, [], ◌∷◌, ◌==◌, eq_iff, arith,
}
use idpico.Domain.{Time, AuthCode, Token}
use idpico.World.{Store, World}
use idpico.Exec.{Result, ok, err, ◌>>=◌}
use idpico.Exec.Keeps.{Keeps, keeps_rules, Keeps-save}
use idpico.Store.File.{load, save}
use idpico.Store.AuthCodes
use idpico.Store.AuthCodes.{use_up}
use idpico.Store.Tokens
use idpico.Store.Revocations
use idpico.Oidc.Types.{TokenRequest, TokenResponse}
use idpico.Oidc.TokenService.{TokenService}
use idpico.Oidc.TokenService.Exchange.{handle_authorization_code}
use idpico.Oidc.TokenService.Exchanged.{handle_authorization_code-ok}
use idpico.Oidc.Keeps.{Survives}
use idpico.Oidc.Keeps.Endpoints.{
  handle_authorization_code-Keeps, handle_refresh_token-Keeps, handle_revocation-Keeps,
  introspect-Keeps, create_auth_code-Keeps,
}
use idpico.Oidc.History.Once.{Gives, nothing, one, OnceOnly, total-le-one}
use idpico.Oidc.History.{
  Request, authorize, exchange, refresh, revocation, introspection, Event, serve, redeems, total,
}

abbrev has_code : String → AuthCode → Bool
has_code code a = a.code == code

-- The code is stored, and used.
abbrev IsSpent : String → Store → Time → Type 0
IsSpent code s t = first_is (has_code code) (λ a. a.used) s.auth_codes ≡ true

mark_used-IsSpent : (code other : String) → Keeps (IsSpent code) (AuthCodes.mark_used other)
unfolding AuthCodes.mark_used load save ◌>>=◌
mark_used-IsSpent code other = record {
  at = λ w h. ground (
    arith,
    first_is-change_first (has_code code) (λ a. a.used) (has_code other) use_up w.auth_codes
        (λ a. refl) (λ a. refl) h,
  );
}

create-IsSpent : (code : String) (ac : AuthCode) → Keeps (IsSpent code) (AuthCodes.create ac)
unfolding AuthCodes.create load save ◌>>=◌
create-IsSpent code ac = record {
  at = λ w h. ground (
    arith,
    first_is-append (has_code code) (λ a. a.used) w.auth_codes
        (record ac { created_at = w.now } ∷ []) h,
  );
}

revoke-IsSpent : (code id : String) → Keeps (IsSpent code) (Tokens.revoke id)
unfolding Tokens.revoke Revocations.revoke_before Revocations.upsert
revoke-IsSpent code id = search (keeps_rules, Keeps-save) depth 12

rotate-IsSpent : (code id : String) → Keeps (IsSpent code) (Tokens.rotate id)
unfolding Tokens.rotate
rotate-IsSpent code id = search (keeps_rules, Keeps-save) depth 9

create_token-IsSpent : (code : String) (t : Token) → Keeps (IsSpent code) (Tokens.create t)
unfolding Tokens.create
create_token-IsSpent code t = search (keeps_rules, Keeps-save)

IsSpent-Survives : (code : String) → Survives (IsSpent code)
IsSpent-Survives code = record {
  on_clients = λ s t x h. h;
  on_revocations = λ s t x h. h;
  on_revoke = revoke-IsSpent code;
  on_rotate = rotate-IsSpent code;
  on_create_token = create_token-IsSpent code;
  on_mark_used = mark_used-IsSpent code;
  on_create_code = create-IsSpent code;
}

serve-IsSpent : (code : String) (s : TokenService) (r : Request) → Keeps (IsSpent code) (serve s r)
unfolding serve
serve-IsSpent code s (authorize ttl req user at amr) =
    search (keeps_rules, create_auth_code-Keeps (IsSpent-Survives code))
serve-IsSpent code s (exchange req) =
    search (keeps_rules, handle_authorization_code-Keeps (IsSpent-Survives code))
serve-IsSpent code s (refresh req) =
    search (keeps_rules, handle_refresh_token-Keeps (IsSpent-Survives code))
serve-IsSpent code s (revocation req) =
    search (keeps_rules, handle_revocation-Keeps (IsSpent-Survives code))
serve-IsSpent code s (introspection req) =
    search (keeps_rules, introspect-Keeps (IsSpent-Survives code))

-- Once a code is used up, no exchange of it succeeds.
exchange_of_spent :
    (s : TokenService) (req : TokenRequest) (w : World) {resp : TokenResponse} {w' : World}
    → IsSpent req.code w.store w.now
    → handle_authorization_code s req w ≡ (ok resp, w')
    → ⊥
exchange_of_spent s req w h e =
    let x = handle_authorization_code-ok s req w e in
    cc (h, first_is-find (has_code req.code) (λ a. a.used) w.auth_codes x.code_stored, x.fresh)

-- A successful exchange uses its code up.
exchange_spends :
    (s : TokenService) (req : TokenRequest) (w : World) {resp : TokenResponse} {w' : World}
    → handle_authorization_code s req w ≡ (ok resp, w')
    → IsSpent req.code w'.store w'.now
exchange_spends s req w {w' = w'} e =
    let x = handle_authorization_code-ok s req w e in
    first_is-find (has_code req.code) (λ a. a.used) w'.auth_codes x.spent

exchange-Gives :
    (code : String) (s : TokenService) (req : TokenRequest) (w : World)
    (r : Result TokenResponse × World)
    → handle_authorization_code s req w ≡ r
    → (b : Bool) → (req.code == code) ≡ b
    → let q = serve s (exchange req) w in Gives (IsSpent code) (redeems code (exchange req) q.0) q.1
unfolding serve ◌>>=◌
exchange-Gives code s req w (err x, w') e b t = nothing (rw e refl)
exchange-Gives code s req w (ok resp, w') e false t = nothing (rw (e, t) refl)
exchange-Gives code s req w (ok resp, w') e true t =
    one (rw (e, t) refl)
      (rw e (subst (λ c. IsSpent c w'.store w'.now) ((eq_iff _ _).0 t) (exchange_spends s req w e)))

serve-Gives :
    (code : String) (s : TokenService) (r : Request) (w : World)
    → let q = serve s r w in Gives (IsSpent code) (redeems code r q.0) q.1
serve-Gives code s (authorize ttl req user at amr) w = nothing refl
serve-Gives code s (exchange req) w =
    exchange-Gives code s req w (handle_authorization_code s req w) refl (req.code == code) refl
serve-Gives code s (refresh req) w = nothing refl
serve-Gives code s (revocation req) w = nothing refl
serve-Gives code s (introspection req) w = nothing refl

exchange_no_tokens :
    (code : String) (s : TokenService) (req : TokenRequest) (w : World)
    (r : Result TokenResponse × World)
    → IsSpent code w.store w.now
    → handle_authorization_code s req w ≡ r
    → (b : Bool) → (req.code == code) ≡ b
    → redeems code (exchange req) (serve s (exchange req) w).0 ≡ 0
unfolding serve ◌>>=◌
exchange_no_tokens code s req w (err x, w') h e b t = rw e refl
exchange_no_tokens code s req w (ok resp, w') h e false t = rw (e, t) refl
exchange_no_tokens code s req w (ok resp, w') h e true t =
    absurd (exchange_of_spent s req w (rw ((eq_iff _ _).0 t) h) e)

-- A code that is used up gives nothing more.
serve_no_tokens :
    (code : String) (s : TokenService) (r : Request) (w : World)
    → IsSpent code w.store w.now
    → redeems code r (serve s r w).0 ≡ 0
serve_no_tokens code s (exchange req) w h =
    exchange_no_tokens code s req w (handle_authorization_code s req w) h refl (req.code == code)
      refl
serve_no_tokens code s (authorize ttl req user at amr) w h = refl
serve_no_tokens code s (refresh req) w h = refl
serve_no_tokens code s (revocation req) w h = refl
serve_no_tokens code s (introspection req) w h = refl

code_OnceOnly : (s : TokenService) (code : String) → OnceOnly s (redeems code) (IsSpent code)
code_OnceOnly s code = record {
  gives = serve-Gives code s;
  gives_none = serve_no_tokens code s;
  keeps = serve-IsSpent code s;
  lasts = λ e w h. h;
}

-- In any history of requests to the authorization, token, revocation and introspection endpoints,
-- in any order, with any reads and writes failing, tokens are handed out for one authorization
-- code at most once.
pub redemptions-le-one :
    (s : TokenService) (code : String) (es : List Event) (w : World)
    → total s (redeems code) es w ≤ 1
redemptions-le-one s code = total-le-one (code_OnceOnly s code)
