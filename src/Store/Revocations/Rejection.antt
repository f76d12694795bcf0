-- ===== src/Store/Revocations/Rejection.antt =====
-- Which access tokens the stored revocations reject.
use idpico.Prelude.{
  ap, ◌≤◌, String, [], ◌∷◌, ◌≡◌, Bool, true, List, any, any-append, any-change_first,
  any-change_first_new, eq_iff, eq_refl, inl, inr, arith, ◌⊎◌, refl, ◌+◌,
}
use idpico.Domain.{
  Time, Revocation, revocation_user, revocation_user_client, revocation_client, user_client_key,
  revocation_retention,
}
use idpico.World.{Store, World}
use idpico.Exec.{Done, ok}
use idpico.Exec.Inversion.{bind-ok}
use idpico.Store.File.{revocations, load-ok, save-ok, Wrote, Wrote-after}
use idpico.Store.Revocations.{rejects, extend, names_row, upserted, upsert, revoke_before}

-- The stored revocations reject the access token.
abbrev pub rejected : World → String → String → String → Time → Bool
rejected w jti user_id client_id issued_at =
    any (rejects jti user_id client_id issued_at) w.revocations

extend-rejects :
    (jti user_id client_id : String) (issued_at not_before expires_at : Time) (rv : Revocation)
    → rejects jti user_id client_id issued_at rv ≡ true
    → rejects jti user_id client_id issued_at (extend not_before expires_at rv) ≡ true
unfolding rejects
extend-rejects jti user_id client_id issued_at not_before expires_at rv h = ground arith

upserted-rejects :
    (kind key jti user_id client_id : String) (issued_at not_before expires_at : Time)
    (rvs : List Revocation)
    → any (rejects jti user_id client_id issued_at) rvs ≡ true
    → any (rejects jti user_id client_id issued_at) (upserted kind key not_before expires_at rvs)
      ≡ true
unfolding upserted
upserted-rejects kind key jti user_id client_id issued_at not_before expires_at rvs h =
    let q = rejects jti user_id client_id issued_at in
    ground (
      arith,
      any-append q rvs (
          record { kind = kind; key = key; not_before = not_before; expires_at = expires_at } ∷ []),
      any-change_first (names_row kind key) q (extend not_before expires_at) rvs
          (extend-rejects jti user_id client_id issued_at not_before expires_at) h,
    )

upsert-ok :
    (kind key : String) (not_before expires_at : Time) (w : World) {u : Done} {w' : World}
    → upsert kind key not_before expires_at w ≡ (ok u, w')
    → Wrote revocations (upserted kind key not_before expires_at w.revocations) w w'
unfolding upsert
upsert-ok kind key not_before expires_at w h =
    let (xs, w₁, l, r) = bind-ok _ _ w h in
    let (x, same) = load-ok revocations _ w l in
    Wrote-after revocations (ap (upserted kind key not_before expires_at) x) same
      (save-ok revocations _ w₁ r)

-- The rows that concern the access tokens of a user under a client, other than one token's.
abbrev Concerns : String → String → String → String → Type 0
Concerns kind key user_id client_id =
    (kind ≡ revocation_user × key ≡ user_id)
    ⊎ (kind ≡ revocation_user_client × key ≡ user_client_key user_id client_id)
    ⊎ (kind ≡ revocation_client × key ≡ client_id)

row-rejects :
    (kind key jti user_id client_id : String) (issued_at : Time) (rv : Revocation)
    → Concerns kind key user_id client_id
    → rv.kind ≡ kind
    → rv.key ≡ key
    → issued_at ≤ rv.not_before
    → rejects jti user_id client_id issued_at rv ≡ true
unfolding rejects
row-rejects kind key jti user_id client_id issued_at rv (inl (p, q)) k e old =
    rw (k, e) (rw (p, q) (ground (arith, eq_refl user_id)))
row-rejects kind key jti user_id client_id issued_at rv (inr (inl (p, q))) k e old =
    rw (k, e) (rw (p, q) (ground (arith, eq_refl (user_client_key user_id client_id))))
row-rejects kind key jti user_id client_id issued_at rv (inr (inr (p, q))) k e old =
    rw (k, e) (rw (p, q) (ground (arith, eq_refl client_id)))

upserted-new :
    (kind key jti user_id client_id : String) (issued_at not_before expires_at : Time)
    (rvs : List Revocation)
    → Concerns kind key user_id client_id
    → issued_at ≤ not_before
    → any (rejects jti user_id client_id issued_at) (upserted kind key not_before expires_at rvs)
      ≡ true
unfolding upserted
upserted-new kind key jti user_id client_id issued_at not_before expires_at rvs c old =
    let q = rejects jti user_id client_id issued_at in
    let row : Revocation = record {
      kind = kind;
      key = key;
      not_before = not_before;
      expires_at = expires_at;
    } in
    ground (
      arith,
      any-append q rvs (row ∷ []),
      row-rejects kind key jti user_id client_id issued_at row c refl refl old,
      any-change_first_new (names_row kind key) q (extend not_before expires_at) rvs λ rv named.
          row-rejects kind key jti user_id client_id issued_at (extend not_before expires_at rv) c
            (ground (arith, eq_iff rv.kind kind)) (ground (arith, eq_iff rv.key key))
            (ground arith),
    )

revocations_of : {s t : Store} → s ≡ t → s.revocations ≡ t.revocations
revocations_of e = ap (λ (s : Store). s.revocations) e

-- When RevokeBefore succeeds for a user, for a user under a client or for a client, the stored
-- revocations reject every access token of that user under that client that was issued at the
-- given time or before it.
pub revoke_before-rejects :
    (kind key jti user_id client_id : String) (issued_at not_before : Time) (w : World) {w' : World}
    → Concerns kind key user_id client_id
    → issued_at ≤ not_before
    → revoke_before kind key not_before w ≡ (ok tt, w')
    → rejected w' jti user_id client_id issued_at ≡ true
unfolding revoke_before
revoke_before-rejects kind key jti user_id client_id issued_at not_before w c old h =
    let lasts = not_before + revocation_retention in
    rw (revocations_of (upsert-ok kind key not_before lasts w h).store)
      (upserted-new kind key jti user_id client_id issued_at not_before lasts w.revocations c old)

-- An upsert that succeeds, of whatever row, makes no access token acceptable that the stored
-- revocations reject.
pub upsert-keeps_rejected :
    (kind key jti user_id client_id : String) (issued_at not_before expires_at : Time) (w : World)
    {w' : World}
    → rejected w jti user_id client_id issued_at ≡ true
    → upsert kind key not_before expires_at w ≡ (ok tt, w')
    → rejected w' jti user_id client_id issued_at ≡ true
upsert-keeps_rejected kind key jti user_id client_id issued_at not_before expires_at w was h =
    rw (revocations_of (upsert-ok kind key not_before expires_at w h).store) (
      upserted-rejects kind key jti user_id client_id issued_at not_before expires_at w.revocations
        was)
