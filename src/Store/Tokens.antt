-- ===== src/Store/Tokens.antt =====
-- `tokenRepository` of internal/store/file/file.go.
use idpico.Prelude.{
  String, true, ◌&&◌, List, [], ◌∷◌, ◌++◌, map, ◌==◌, find, keep, change_first, if◌then◌else◌,
}
use idpico.Errors.{not_found, conflict}
use idpico.Domain.{
  Token, after, revocation_user, revocation_user_client, revocation_client, user_client_key,
}
use idpico.Exec.{Exec, Done, pure, raise, require, clock, ◌>>=◌, ◌>>◌}
use idpico.Store.File.{tokens, load, save}
use idpico.Store.Revocations.{revoke_before}
use idpico.Store.Sort.{newest_first}

unfoldable pub create : Token → Exec Done
create token = do
  found ← load tokens "failed to load tokens"
  now ← clock
  save tokens (found ++ record token { created_at = now } ∷ [])

unfoldable pub get_by_id : String → Exec Token
get_by_id id = do
  found ← load tokens "failed to load tokens"
  require (find (λ t. t.id == id) found) (not_found "token" id)

abbrev pub retire : Token → Token
retire t = record t { revoked = true }

-- Revoking a refresh token also rejects the access tokens of the same user and client.
unfoldable pub revoke : String → Exec Done
revoke id = do
  found ← load tokens "failed to load tokens"
  t ← require (find (λ t. t.id == id) found) (not_found "token" id)
  save tokens (change_first (λ t. t.id == id) retire found)
  now ← clock
  revoke_before revocation_user_client (user_client_key t.user_id t.client_id) now

unfoldable pub rotate : String → Exec Done
rotate id = do
  found ← load tokens "failed to load tokens"
  t ← require (find (λ t. t.id == id) found) (not_found "token" id)
  if t.revoked
      then raise (conflict "refresh token already used")
      else save tokens (change_first (λ t. t.id == id) retire found)

unfoldable pub revoke_by_user_id : String → Exec Done
revoke_by_user_id user_id = do
  found ← load tokens "failed to load tokens"
  save tokens (map (λ t. if t.user_id == user_id then retire t else t) found)
  now ← clock
  revoke_before revocation_user user_id now

unfoldable revoke_by_client_id : String → Exec Done
revoke_by_client_id client_id = do
  found ← load tokens "failed to load tokens"
  save tokens (map (λ t. if t.client_id == client_id then retire t else t) found)
  now ← clock
  revoke_before revocation_client client_id now

unfoldable pub delete_expired : Exec Done
delete_expired = do
  found ← load tokens "failed to load tokens"
  now ← clock
  save tokens (keep (λ t. after t.expires_at now) found)

unfoldable pub list_by_user_id : String → Exec (List Token)
unfolding newest_first
list_by_user_id user_id = do
  found ← load tokens "failed to load tokens"
  now ← clock
  pure (
      newest_first (λ t. t.created_at)
        (keep (λ t. t.user_id == user_id && after t.expires_at now) found))
