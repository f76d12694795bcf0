-- ===== src/Oidc/TokenService/Introspected/Reports.antt =====
-- When the two halves of introspection report a token as active.
use idpico.Prelude.{
  sym, inl, inr, String, Bool, true, false, ◌&&◌, ◌≡◌, ap, subst, ◌∙◌, some, ◌==◌, find, any, ltb,
  leb, Bool-cases, arith, refl,
}
use idpico.Domain.{Token, User, Time, is_valid}
use idpico.World.{Store, World}
use idpico.Exec.{Exec, Result, ok}
use idpico.Exec.Inversion.{Same, Same-refl, bind-ok, clock-ok, pure-ok, branch-cases}
use idpico.Store.File.{revocations, load-ok}
use idpico.Store.Fetch.{user-fetched}
use idpico.Store.Revocations
use idpico.Store.Users
use idpico.Store.Revocations.Rejection.{rejected}
use idpico.Oidc.Types.{Claims}
use idpico.Oidc.TokenService.{Crypto, TokenService}
use idpico.Oidc.TokenService.Introspection.{
  introspect_valid_token, IntrospectionResponse, access_token_revoked, user_active, inactive,
  report_access_token, report_refresh_token, introspect_access_token, introspect_refresh_token,
}

-- The user is stored and enabled.
abbrev pub IsEnabled : World → String → Type 0
IsEnabled w id = (u : User) × (find (λ u. u.id == id) w.users ≡ some u) × (u.active ≡ true)

-- The stored revocations reject the token of the claims.
abbrev pub revoked_in : Bool → Crypto → Store → Claims → Bool
revoked_in enabled k x c =
    let at = k.issued_at_of c in
    enabled && (ltb 0 at && any (Revocations.rejects c.id c.subject c.client_id at) x.revocations)

abbrev revoked_by : TokenService → World → Claims → Bool
revoked_by s w c = revoked_in s.revocations s.crypto w.store c

user_active-ok :
    (id : String) (w : World) {w' : World} → user_active id w ≡ (ok true, w') → IsEnabled w id
unfolding user_active
user_active-ok id w h = elim (branch-cases (Users.get_by_id id) _ _ w h) [
  | inl (u, v, f, g) ↦ let (e, _) = pure-ok _ v g in (u, (user-fetched id w f).0, rw (← e) refl)
  | inr (e, v, f, g) ↦ let (e, _) = pure-ok false v g in absurd (ground arith)
]

positive_lem : (t : Time) → leb t 0 ≡ true → ltb 0 t ≡ false
positive_lem t h = ground arith

dated_lem : (t : Time) → leb t 0 ≡ false → ltb 0 t ≡ true
dated_lem t h = ground arith

is_revoked-ok :
    (jti user_id client_id : String) (at : Time) (w : World) {b : Bool} {w' : World}
    → Revocations.is_revoked jti user_id client_id at w ≡ (ok b, w')
    → (b ≡ rejected w jti user_id client_id at) × Same w w'
unfolding Revocations.is_revoked
is_revoked-ok jti user_id client_id at w h =
    let (xs, w₁, l, g) = bind-ok _ _ w h in
    let (x, same) = load-ok revocations _ w l in
    let (e, end) = pure-ok _ w₁ g in
    (e ∙ ap (any (Revocations.rejects jti user_id client_id at)) x, rw (← end) at same)

pub access_token_revoked-ok :
    (enabled : Bool) (k : Crypto) (c : Claims) (w : World) {b : Bool} {w' : World}
    → access_token_revoked enabled k c w ≡ (ok b, w')
    → (b ≡ revoked_in enabled k w.store c) × Same w w'
unfolding access_token_revoked
access_token_revoked-ok false k c w h =
    let (e, end) = pure-ok false w h in (e, rw end (Same-refl w))
access_token_revoked-ok true k c w {b} {w'} h = elim (Bool-cases (leb (k.issued_at_of c) 0)) [
  | inl undated ↦
      let (e, end) = pure-ok false w (rw undated at h) in
      (rw (positive_lem _ undated) e, rw end (Same-refl w))
  | inr dated ↦
      let (e, same) =
        is_revoked-ok c.id c.subject c.client_id (k.issued_at_of c) w (rw dated at h) in
      (rw (dated_lem _ dated) e, same)
]

-- An access token that may be reported: the generator accepts it, it is not revoked, and its
-- subject is enabled.
pub record AccessToken (s : TokenService) (token : String) (w : World)
    (resp : IntrospectionResponse) : Type 0 where
  pub claims : Claims
  pub valid : (s.generator.validate_access_token token w).0 ≡ ok claims
  pub not_revoked : revoked_by s w claims ≡ false
  pub enabled : IsEnabled w claims.subject
  pub report : resp ≡ report_access_token claims

-- A refresh token that may be reported: it is stored, not revoked and in time, and its user is
-- enabled.
pub record RefreshToken (id : String) (w : World) (resp : IntrospectionResponse) : Type 0 where
  pub token : Token
  pub stored : find (λ t. t.id == id) w.tokens ≡ some token
  pub valid : is_valid w.now token ≡ true
  pub enabled : IsEnabled w token.user_id
  pub report : resp ≡ report_refresh_token token resp.username

pub Same-after :
    {A : Type 0} (m : Exec A) {w : World} {r : Result A} {v : World}
    → Same w (m w).1
    → m w ≡ (r, v)
    → Same w v
Same-after m {w = w} same e = subst (λ (q : Result _ × World). Same w q.1) e same

pub not_inactive : {resp : IntrospectionResponse} → resp ≡ inactive → resp.active ≡ true → ⊥
not_inactive e on =
    let f : false ≡ true = sym (ap (λ (r : IntrospectionResponse). r.active) e) ∙ on in ground arith

pub IsEnabled-before : {v w : World} (id : String) → Same v w → IsEnabled w id → IsEnabled v id
IsEnabled-before id same (u, found, active) =
    (u, ap (λ (s : Store). find (λ u. u.id == id) s.users) (sym same.store) ∙ found, active)

pub introspect_access_token-ok :
    (s : TokenService) (c : Claims) (w : World) {resp : IntrospectionResponse} {w' : World}
    → introspect_access_token s c w ≡ (ok resp, w')
    → resp.active ≡ true
    → (revoked_by s w c ≡ false) × IsEnabled w c.subject × (resp ≡ report_access_token c)
unfolding introspect_access_token
introspect_access_token-ok s c w h on =
    let (b, w₁, r, h₁) = bind-ok _ _ w h in
    let (e, same) = access_token_revoked-ok s.revocations s.crypto c w r in
    elim (Bool-cases b) [
      | inl t ↦ let (r', _) = pure-ok inactive w₁ (rw t at h₁) in absurd (not_inactive r' on)
      | inr f ↦
          let (a, w₂, u, h₂) = bind-ok _ _ w₁ (rw f at h₁) in
          let (r', _) = pure-ok _ w₂ h₂ in
          elim (Bool-cases a) [
            | inl t ↦ (
              rw (← e) f,
              IsEnabled-before c.subject same (user_active-ok c.subject w₁ (rw t at u)),
              rw t at r',
            )
            | inr g ↦ absurd (not_inactive (rw g at r') on)
          ]
    ]

report_self :
    (t : Token) (username : String) {resp : IntrospectionResponse}
    → resp ≡ report_refresh_token t username
    → resp ≡ report_refresh_token t resp.username
unfolding report_refresh_token
report_self t username e =
    e ∙ ap (report_refresh_token t) (sym (ap (λ (r : IntrospectionResponse). r.username) e))

introspect_valid_token-ok :
    (t : Token) (w : World) {resp : IntrospectionResponse} {w' : World}
    → introspect_valid_token t w ≡ (ok resp, w')
    → resp.active ≡ true
    → IsEnabled w t.user_id × (resp ≡ report_refresh_token t resp.username)
unfolding introspect_valid_token
introspect_valid_token-ok t w h on =
    let (a, w₁, u, h₁) = bind-ok _ _ w h in
    elim (Bool-cases a) [
      | inr f ↦ let (r', _) = pure-ok inactive w₁ (rw f at h₁) in absurd (not_inactive r' on)
      | inl active ↦
          let (username, w₂, m, h₂) = bind-ok _ _ w₁ (rw active at h₁) in
          let (r', _) = pure-ok _ w₂ h₂ in
          (user_active-ok t.user_id w (rw active at u), report_self t username r')
    ]

pub introspect_refresh_token-ok :
    (t : Token) (w : World) {resp : IntrospectionResponse} {w' : World}
    → introspect_refresh_token t w ≡ (ok resp, w')
    → resp.active ≡ true
    → (is_valid w.now t ≡ true)
      × IsEnabled w t.user_id
      × (resp ≡ report_refresh_token t resp.username)
unfolding introspect_refresh_token
introspect_refresh_token-ok t w {resp} {w'} h on =
    let (now, w₁, q, h₁) = bind-ok _ _ w h in
    let (n, e₁) = clock-ok w q in
    elim (Bool-cases (is_valid now t)) [
      | inr f ↦ let (r', _) = pure-ok inactive w₁ (rw f at h₁) in absurd (not_inactive r' on)
      | inl valid ↦
          let here : introspect_valid_token t w ≡ (ok resp, w') =
            subst (λ (v : World). introspect_valid_token t v ≡ (ok resp, w')) e₁ (rw valid at h₁) in
          let (enabled, report) = introspect_valid_token-ok t w here on in
          (rw n at valid, enabled, report)
    ]
