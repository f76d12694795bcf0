-- ===== src/Store/Consents.antt =====
-- `consentRepository` of internal/store/file/consents.go.
use Prim.Native.String
use idpico.Prelude.{
  String, Bool, not, ◌&&◌, List, [], ◌∷◌, ◌++◌, ◌==◌, find, any, keep, change_first, remove_first,
  if◌then◌else◌,
}
use idpico.Errors.{Error, not_found}
use idpico.Domain.{Consent}
use idpico.Exec.{Exec, Done, pure, raise, require, clock, new_uuid, ◌>>=◌}
use idpico.Store.File.{consents, load, save}

abbrev pub between : String → String → Consent → Bool
between user_id client_id c = c.user_id == user_id && c.client_id == client_id

-- The row for a user and a client is replaced under its old id, or a new row is added.
unfoldable pub upserted : Consent → List Consent → List Consent
upserted consent found =
    let same = between consent.user_id consent.client_id in
    if any same found
    then change_first same (λ c. record consent { id = c.id }) found
    else found ++ consent ∷ []

unfoldable pub upsert : Consent → Exec Done
unfolding upserted
upsert consent = do
  found ← load consents "failed to load consents"
  id ← if consent.id == "" then new_uuid else pure consent.id
  now ← clock
  save consents (upserted (record consent { id = id; granted_at = now }) found)

no_consent : String → String → Error
no_consent user_id client_id = not_found "consent" (String.◌++◌ user_id (String.◌++◌ "/" client_id))

unfoldable pub get : String → String → Exec Consent
unfolding no_consent
get user_id client_id = do
  found ← load consents "failed to load consents"
  require (find (between user_id client_id) found) (no_consent user_id client_id)

pub list_by_user_id : String → Exec (List Consent)
list_by_user_id user_id = do
  found ← load consents "failed to load consents"
  pure (keep (λ c. c.user_id == user_id) found)

unfoldable pub delete : String → String → Exec Done
unfolding no_consent
delete user_id client_id = do
  found ← load consents "failed to load consents"
  if any (between user_id client_id) found
      then save consents (remove_first (between user_id client_id) found)
      else raise (no_consent user_id client_id)

delete_by_user_id : String → Exec Done
delete_by_user_id user_id = do
  found ← load consents "failed to load consents"
  save consents (keep (λ c. not (c.user_id == user_id)) found)
