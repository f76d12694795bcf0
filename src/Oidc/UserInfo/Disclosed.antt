-- ===== src/Oidc/UserInfo/Disclosed.antt =====
-- What the userinfo endpoint discloses, and of whom.
use idpico.Prelude.{
  String, true, false, ◌≡◌, refl, sym, ap, ◌∙◌, ◌⊎◌, inl, inr, [], Option, none, some, ◌==◌, find,
  find-passes, eq_iff, Bool-cases, if◌then◌else◌, arith,
}
use idpico.Domain.{User}
use idpico.World.{Store, World}
use idpico.Exec.{ok}
use idpico.Exec.Inversion.{Same-trans, bind-ok, check-ok, pure-ok, rethrow-ok, unless-ok}
use idpico.Store.Fetch.{user-fetched}
use idpico.Oidc.Types.{Claims}
use idpico.Oidc.Scope.{has_scope}
use idpico.Oidc.TokenService.Introspected.Reports.{revoked_in, access_token_revoked-ok, Same-after}
use idpico.Oidc.UserInfo.{
  List, UserInfoResponse, UserInfoService, effective_scope, user_response, put_names, add_groups,
  respond, get_user_info,
}

-- The groups change nothing but the two fields for them, and these only under the scope `groups`.
record OnlyGroups (scope : String) (base resp : UserInfoResponse) : Type 0 where
  pub rest : resp ≡ record base { groups = resp.groups; extra = resp.extra }
  pub scoped : (has_scope scope "groups" ≡ true) ⊎ (resp ≡ base)

put_names-rest :
    (claim : String) (names : List String) (base : UserInfoResponse)
    → let resp = put_names claim names base in
      resp ≡ record base { groups = resp.groups; extra = resp.extra }
put_names-rest claim names base = ground arith

add_groups-ok :
    (claim : Option String) (scope : String) (user : User) (base : UserInfoResponse) (w : World)
    {resp : UserInfoResponse} {w' : World}
    → add_groups claim scope user base w ≡ (ok resp, w')
    → OnlyGroups scope base resp
unfolding add_groups
add_groups-ok none scope user base w h =
    let (e, _) = pure-ok base w h in record { rest = rw e refl; scoped = inr e }
add_groups-ok (some claim) scope user base w h = elim (Bool-cases (has_scope scope "groups")) [
  | inr off ↦
      let (e, _) = pure-ok base w (rw off at h) in record { rest = rw e refl; scoped = inr e }
  | inl on ↦
      let (names, w₁, g, h₁) = bind-ok _ _ w (rw on at h) in
      let (e, _) = pure-ok (put_names claim names base) w₁ h₁ in
      record { rest = rw e (put_names-rest claim names base); scoped = inl on }
]

-- What the endpoint tells of the user of an access token, scope by scope.
pub record Disclosed (s : UserInfoService) (token : String) (w : World) (resp : UserInfoResponse)
    : Type 0 where
  pub claims : Claims
  pub valid : (s.generator.validate_access_token token w).0 ≡ ok claims
  pub not_revoked : revoked_in s.revocations s.crypto w.store claims ≡ false
  pub user : User
  pub stored : find (λ u. u.id == claims.subject) w.users ≡ some user
  pub active : user.active ≡ true
  pub sub : resp.sub ≡ claims.subject
  pub email : resp.email ≡ (if has_scope (effective_scope claims) "email" then user.email else "")
  pub email_verified :
      resp.email_verified
      ≡ (if has_scope (effective_scope claims) "email" then user.email_verified else false)
  pub name :
      resp.name ≡ (if has_scope (effective_scope claims) "profile" then user.display_name else "")
  pub given_name :
      resp.given_name
      ≡ (if has_scope (effective_scope claims) "profile" then user.given_name else "")
  pub family_name :
      resp.family_name
      ≡ (if has_scope (effective_scope claims) "profile" then user.family_name else "")
  pub groups :
      (has_scope (effective_scope claims) "groups" ≡ true)
      ⊎ ((resp.groups ≡ none) × (resp.extra ≡ []))

groups_scoped :
    (scope : String) (user : User) (resp : UserInfoResponse)
    → OnlyGroups scope (user_response scope user) resp
    → (has_scope scope "groups" ≡ true) ⊎ ((resp.groups ≡ none) × (resp.extra ≡ []))
unfolding user_response
groups_scoped scope user resp only = elim only.scoped [
  | inl on ↦ inl on
  | inr e ↦
      inr (ap (λ (r : UserInfoResponse). r.groups) e, ap (λ (r : UserInfoResponse). r.extra) e)
]

respond-ok :
    (s : UserInfoService) (claims : Claims) (w : World) {resp : UserInfoResponse} {w' : World}
    → respond s claims w ≡ (ok resp, w')
    → (user : User) × (find (λ u. u.id == claims.subject) w.users ≡ some user)
      × (user.active ≡ true)
      × OnlyGroups (effective_scope claims) (user_response (effective_scope claims) user) resp
unfolding respond
respond-ok s claims w h =
    let (user, w₁, f, h₁) = bind-ok _ _ w h in
    let (found, _) = user-fetched claims.subject w (rethrow-ok _ _ w f) in
    let (_, w₂, a, h₂) = bind-ok _ _ w₁ h₁ in
    let (active, _) = check-ok user.active _ w₁ a in
    (user, found, active, add_groups-ok s.group_claims _ user _ w₂ h₂)

-- A successful answer is about an access token that the generator accepts, and that no stored
-- revocation rejects, where the service keeps revocations and the token has a time of issue (without
-- either the revocations are not consulted), and about its subject, who is stored and enabled. It gives the address, the name and the
-- groups only under the scopes `email`, `profile` and `groups`, and leaves them empty without; a
-- token with no scope counts as one with the first two.
pub get_user_info-ok :
    (s : UserInfoService) (token : String) (w : World) {resp : UserInfoResponse} {w' : World}
    → get_user_info s token w ≡ (ok resp, w')
    → Disclosed s token w resp
unfolding get_user_info user_response
get_user_info-ok s token w {resp} h =
    let (claims, w₁, q, h₁) = bind-ok _ _ w h in
    let valid = rethrow-ok _ _ w q in
    let same =
      Same-after (s.generator.validate_access_token token) (s.generator.validate_same token w)
        valid in
    let (revoked, w₂, k, h₂) = bind-ok _ _ w₁ h₁ in
    let (e, same') = access_token_revoked-ok s.revocations s.crypto claims w₁ k in
    let (off, h₃) = unless-ok revoked _ _ w₂ h₂ in
    let (user, found, active, only) = respond-ok s claims w₂ h₃ in
    let here =
      ap (λ (x : Store). find (λ (u : User). u.id == claims.subject) x.users)
        (sym (Same-trans same same').store)
      ∙ found in
    disclosed claims user (rw valid refl)
      (ap (λ (x : Store). revoked_in s.revocations s.crypto x claims) (sym same.store)
        ∙ (sym e ∙ off))
      here active only
  where
    disclosed :
        (claims : Claims) (user : User)
        → (s.generator.validate_access_token token w).0 ≡ ok claims
        → revoked_in s.revocations s.crypto w.store claims ≡ false
        → find (λ u. u.id == claims.subject) w.users ≡ some user
        → user.active ≡ true
        → OnlyGroups (effective_scope claims) (user_response (effective_scope claims) user) resp
        → Disclosed s token w resp
    disclosed claims user valid fresh found active only =
        let passes = find-passes (λ u. u.id == claims.subject) w.users found in
        record {
          claims = claims;
          valid = valid;
          not_revoked = fresh;
          user = user;
          stored = found;
          active = active;
          sub =
              ap (λ (r : UserInfoResponse). r.sub) only.rest
              ∙ (eq_iff user.id claims.subject).0 passes;
          email = ap (λ (r : UserInfoResponse). r.email) only.rest;
          email_verified = ap (λ (r : UserInfoResponse). r.email_verified) only.rest;
          name = ap (λ (r : UserInfoResponse). r.name) only.rest;
          given_name = ap (λ (r : UserInfoResponse). r.given_name) only.rest;
          family_name = ap (λ (r : UserInfoResponse). r.family_name) only.rest;
          groups = groups_scoped (effective_scope claims) user resp only;
        }
