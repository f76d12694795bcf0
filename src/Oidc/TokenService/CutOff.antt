-- ===== src/Oidc/TokenService/CutOff.antt =====
-- What the cutting off of a grant does to the refresh and the access tokens of a user under a
-- client.
use idpico.Prelude.{
  ◌∙◌, ◌≤◌, ◌<◌, String, ◌≡◌, ap, subst, inl, inr, refl, Bool, true, not, ◌&&◌, ◌||◌, List, [], ◌∷◌,
  some, ◌==◌, eq_iff, find, find-passes, find-change_first, first_is, first_is-find, In, In-find,
  In-keep, keep, change_first, Bool-cases, arith,
}
use idpico.Domain.{Time, Token, after, revocation_user_client, user_client_key}
use idpico.World.{Store, World}
use idpico.Exec.{Exec, Result, ok, clock, ◌>>=◌}
use idpico.Exec.Inversion.{Same, bind-ok, clock-ok, pure-ok, require-ok}
use idpico.Exec.{pure}
use idpico.Prelude.{eq_refl, if◌then◌else◌, ◌∙◌}
use idpico.Exec.Keeps.{Keeps, keeps_rules}
use idpico.Store.File.{tokens, load-ok, save-ok}
use idpico.Store.Sort.{newest_first, In-newest_first}
use idpico.Store.Tokens
use idpico.Store.Tokens.{retire}
use idpico.Store.Revocations
use idpico.Store.Revocations.Rejection.{rejected, revoke_before-rejects}
use idpico.Oidc.Keeps.{Survives, revoke_each-Keeps, revoke_before-Keeps}
use idpico.Oidc.Retired.{has_id, IsRetired, IsRetired-Survives, revoke-IsRetired, cut_off-IsRetired}
use idpico.Oidc.TokenService.{TokenService}
use idpico.Oidc.TokenService.Grant.{revoke_each, revoke_grant}
use idpico.Oidc.Keeps.Clock.{Shows-Survives}

-- What is kept is there after a run.
kept :
    {A : Type 0} {P : Store → Time → Type 0} {m : Exec A} {w : World} {r : Result A} {w' : World}
    → Keeps P m
    → m w ≡ (r, w')
    → P w.store w.now
    → P w'.store w'.now
kept {P = P} {w = w} k e h = subst (λ (q : Result _ × World). P q.1.store q.1.now) e (k.at w h)

retired_in :
    (id : String) (t : Token) (xs : List Token)
    → find (has_id id) xs ≡ some t
    → first_is (has_id id) (λ t. t.revoked) (change_first (has_id id) retire xs) ≡ true
retired_in id t xs h =
    first_is-find (has_id id) (λ t. t.revoked) (change_first (has_id id) retire xs)
      (find-change_first (has_id id) retire xs h (find-passes (has_id id) xs h))

-- A refresh token that is revoked is stored as revoked.
revoke-retires :
    (id : String) (w : World) {w' : World}
    → Tokens.revoke id w ≡ (ok tt, w')
    → IsRetired id w'.store w'.now
unfolding Tokens.revoke
revoke-retires id w h =
    let (xs, w₁, l, h₁) = bind-ok _ _ w h in
    let (t, w₂, q, h₂) = bind-ok _ _ w₁ h₁ in
    let (found, e₂) = require-ok _ _ w₁ q in
    let (_, w₃, s, h₃) = bind-ok _ _ w₂ h₂ in
    let wrote = save-ok tokens _ w₂ s in
    kept (cut_off-IsRetired id t) h₃
      (rw (ap (λ (s : Store). s.tokens) wrote.store) (retired_in id t xs found))

skipped_lem :
    (x t : Token) (client_id : String)
    → x ≡ t
    → t.client_id ≡ client_id
    → (not (x.client_id == client_id) || x.revoked) ≡ true
    → t.revoked ≡ true
skipped_lem x t client_id same c skips =
    let q = rw (same, c) at skips in ground (arith, eq_refl client_id)

revoke_each-retires :
    (client_id : String) (ts : List Token) (t : Token) (w : World) {w' : World}
    → In t ts
    → t.client_id ≡ client_id
    → (t.revoked ≡ true → IsRetired t.id w.store w.now)
    → revoke_each client_id ts w ≡ (ok tt, w')
    → IsRetired t.id w'.store w'.now
unfolding revoke_each
revoke_each-retires client_id [] t w i c was h = absurd i
revoke_each-retires client_id (x ∷ ts) t w i c was h = elim (Bool-cases skips) [
  | inl e ↦ elim i [
    | inl here ↦
        kept (revoke_each-Keeps (IsRetired-Survives t.id) client_id ts) (rw e at h)
          (was (skipped_lem x t client_id here c e))
    | inr there ↦ revoke_each-retires client_id ts t w there c was (rw e at h)
  ]
  | inr e ↦
      let (_, w₁, r, h₁) = bind-ok (Tokens.revoke x.id) _ w (rw e at h) in
      elim i [
        | inl here ↦
            kept (revoke_each-Keeps (IsRetired-Survives t.id) client_id ts) h₁
              (subst (λ (y : Token). IsRetired y.id w₁.store w₁.now) here (revoke-retires x.id w r))
        | inr there ↦
            revoke_each-retires client_id ts t w₁ there c
              (λ r'. kept (revoke-IsRetired t.id x.id) r (was r')) h₁
      ]
]
  where
    skips : Bool
    skips = not (x.client_id == client_id) || x.revoked

list_by_user_id-ok :
    (user_id : String) (w : World) {ts : List Token} {w' : World}
    → Tokens.list_by_user_id user_id w ≡ (ok ts, w')
    → (ts
        ≡ newest_first
            (λ t. t.created_at)
            (keep (λ t. t.user_id == user_id && after t.expires_at w.now) w.tokens))
      × Same w w'
unfolding Tokens.list_by_user_id
list_by_user_id-ok user_id w h =
    let (xs, w₁, l, h₁) = bind-ok _ _ w h in
    let (x, same) = load-ok tokens _ w l in
    let (now, w₂, q, h₂) = bind-ok _ _ w₁ h₁ in
    let (n, e₂) = clock-ok w₁ q in
    let (ts, e₃) = pure-ok _ w₂ h₂ in (ts ∙ rw (n, same.now, x) refl, rw (← e₂, ← e₃) at same)

-- A token that is stored and in time is in the list.
listed_lem :
    (user_id : String) (w : World) (t : Token)
    → find (has_id t.id) w.tokens ≡ some t
    → t.user_id ≡ user_id
    → w.now < t.expires_at
    → In t (
        newest_first
          (λ t. t.created_at)
          (keep (λ t. t.user_id == user_id && after t.expires_at w.now) w.tokens))
listed_lem user_id w t stored u alive =
    In-newest_first (λ t. t.created_at) _ t
      (In-keep _ w.tokens t (In-find _ w.tokens t stored)
        (ground (arith, u, eq_iff t.user_id user_id)))

last-Keeps :
    {P : Store → Time → Type 0}
    → Survives P
    → (s : TokenService) (user_id client_id : String)
    → Keeps P (
        if s.revocations
        then (clock >>= λ now.
            Revocations.revoke_before revocation_user_client
              (user_client_key user_id client_id)
              now)
        else pure tt)
last-Keeps v s user_id client_id = search (keeps_rules, revoke_before-Keeps v)

-- When a grant is cut off, every refresh token of the user under the client that a search by its
-- id finds and that is in time is stored as revoked afterwards.
pub revoke_grant-retires :
    (s : TokenService) (user_id client_id : String) (t : Token) (w : World) {w' : World}
    → find (has_id t.id) w.tokens ≡ some t
    → t.user_id ≡ user_id
    → t.client_id ≡ client_id
    → w.now < t.expires_at
    → revoke_grant s user_id client_id w ≡ (ok tt, w')
    → IsRetired t.id w'.store w'.now
unfolding revoke_grant
revoke_grant-retires s user_id client_id t w stored u c alive h =
    let (ts, w₁, l, h₁) = bind-ok _ _ w h in
    let (_, w₂, each, h₂) = bind-ok _ _ w₁ h₁ in
    let (listed, same) = list_by_user_id-ok user_id w l in
    kept (last-Keeps (IsRetired-Survives t.id) s user_id client_id) h₂ (
      revoke_each-retires client_id ts t w₁ (rw listed (listed_lem user_id w t stored u alive)) c
        (λ gone.
          rw (ap (λ (s : Store). s.tokens) same.store)
            (first_is-find (has_id t.id) (λ t. t.revoked) w.tokens stored ∙ gone))
        each)

-- When a grant is cut off by a service that keeps revocations, they reject every access token of
-- the user under the client that was issued by then.
pub revoke_grant-rejects :
    (s : TokenService) (user_id client_id jti : String) (issued_at : Time) (w : World) {w' : World}
    → s.revocations ≡ true
    → issued_at ≤ w.now
    → revoke_grant s user_id client_id w ≡ (ok tt, w')
    → rejected w' jti user_id client_id issued_at ≡ true
unfolding revoke_grant
revoke_grant-rejects s user_id client_id jti issued_at w on old h =
    let (ts, w₁, l, h₁) = bind-ok _ _ w h in
    let (_, w₂, each, h₂) = bind-ok _ _ w₁ h₁ in
    let (_, same) = list_by_user_id-ok user_id w l in
    let later : w₂.now ≡ w.now =
      kept (revoke_each-Keeps (Shows-Survives w.now) client_id ts) each same.now in
    let (now, w₃, q, g) = bind-ok _ _ w₂ (rw on at h₂) in
    let (n, _) = clock-ok w₂ q in
    revoke_before-rejects revocation_user_client (user_client_key user_id client_id) jti user_id
      client_id issued_at now w₃ (inr (inl (refl, refl))) (rw (n, later) old) g
