-- ===== src/Oidc/ConsentService.antt =====
-- internal/oidc/consent.go: whether a user must be asked, and the record of what was allowed.
pub mod Granted
use Prim.Native.String
use idpico.Prelude.{String, Bool, true, false, List, ◌==◌, if◌then◌else◌}
use idpico.Errors.{is_code, code_not_found, wrapped}
use idpico.Domain.{Client, Consent, covers}
use idpico.Exec.{Exec, Done, pure, raise, branch}
use idpico.Store.Consents
use idpico.Oidc.Scope.{union_scopes}

unfoldable is_granted : String → Client → List String → Exec Bool
is_granted user_id client scopes =
    if client.skip_consent
    then pure true
    else branch (Consents.get user_id client.id) (λ consent. pure (covers consent scopes))
        λ e.
          if is_code e code_not_found
          then pure false
          else raise (wrapped "failed to load consent" e)

-- `&domain.Consent{UserID: userID, ClientID: clientID, Scopes: merged}`
abbrev new_consent : String → String → List String → Consent
new_consent user_id client_id scopes = record {
  id = "";
  user_id = user_id;
  client_id = client_id;
  scopes = scopes;
  granted_at = 0;
}

unfoldable pub grant : String → String → List String → Exec Done
grant user_id client_id scopes =
    branch (Consents.get user_id client_id)
      (λ existing.
        Consents.upsert (new_consent user_id client_id (union_scopes existing.scopes scopes)))
      λ e.
        if is_code e code_not_found
        then Consents.upsert (new_consent user_id client_id scopes)
        else raise (wrapped "failed to load consent" e)

revoke : String → String → Exec Done
revoke user_id client_id = Consents.delete user_id client_id

list_for_user : String → Exec (List Consent)
list_for_user user_id = Consents.list_by_user_id user_id

scope_description : String → String
scope_description scope =
    if scope == "openid"
    then "Verify your identity"
    else if scope == "profile"
    then "View your name and profile details"
    else if scope == "email"
    then "View your email address"
    else if scope == "offline_access"
    then "Stay signed in (issue refresh tokens)"
    else if scope == "groups"
    then "See which groups you belong to"
    else String.◌++◌ "Access: " scope
