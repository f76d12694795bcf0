-- ===== src/Store/Revocations.antt =====
-- `revocationRepository` of internal/store/file/revocations.go.
pub mod Rejection
use idpico.Prelude.{
  ◌+◌, String, Bool, false, not, ◌&&◌, List, [], ◌∷◌, ◌++◌, ◌==◌, any, keep, change_first,
  if◌then◌else◌,
}
use idpico.Domain.{
  Time, Revocation, after, revocation_jti, revocation_user, revocation_user_client,
  revocation_client, revocation_retention, user_client_key,
}
use idpico.Exec.{Exec, Done, pure, clock, ◌>>=◌}
use idpico.Store.File.{revocations, load, save}

abbrev later : Time → Time → Time
later t u = if after t u then t else u

abbrev pub names_row : String → String → Revocation → Bool
names_row kind key rv = rv.kind == kind && rv.key == key

abbrev pub extend : Time → Time → Revocation → Revocation
extend not_before expires_at rv = record rv {
  not_before = later not_before rv.not_before;
  expires_at = later expires_at rv.expires_at;
}

-- What `upsert` writes.
unfoldable pub upserted : String → String → Time → Time → List Revocation → List Revocation
upserted kind key not_before expires_at rvs =
    if any (names_row kind key) rvs
    then change_first (names_row kind key) (extend not_before expires_at) rvs
    else rvs
      ++ record { kind = kind; key = key; not_before = not_before; expires_at = expires_at } ∷ []

unfoldable pub upsert : String → String → Time → Time → Exec Done
unfolding upserted
upsert kind key not_before expires_at = do
  found ← load revocations "failed to load revocations"
  save revocations (upserted kind key not_before expires_at found)

unfoldable pub revoke_access_token : String → Time → Exec Done
revoke_access_token jti expires_at = do now ← clock; upsert revocation_jti jti now expires_at

unfoldable pub revoke_before : String → String → Time → Exec Done
revoke_before kind key not_before = upsert kind key not_before (not_before + revocation_retention)

-- Whether one row rejects an access token.
unfoldable pub rejects : String → String → String → Time → Revocation → Bool
rejects jti user_id client_id issued_at rv =
    if rv.kind == revocation_jti
    then rv.key == jti
    else if rv.kind == revocation_user
    then rv.key == user_id && not (after issued_at rv.not_before)
    else if rv.kind == revocation_user_client
    then rv.key == user_client_key user_id client_id && not (after issued_at rv.not_before)
    else if rv.kind == revocation_client
    then rv.key == client_id && not (after issued_at rv.not_before)
    else false

unfoldable pub is_revoked : String → String → String → Time → Exec Bool
is_revoked jti user_id client_id issued_at = do
  found ← load revocations "failed to load revocations"
  pure (any (rejects jti user_id client_id issued_at) found)

unfoldable pub delete_expired : Exec Done
delete_expired = do
  found ← load revocations "failed to load revocations"
  now ← clock
  save revocations (keep (λ rv. after rv.expires_at now) found)
