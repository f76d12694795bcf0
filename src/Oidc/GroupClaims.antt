-- ===== src/Oidc/GroupClaims.antt =====
-- internal/oidc/groups.go: group memberships as a claim.
use idpico.Prelude.{String, List, map, Option, none, some, ◌==◌, if◌then◌else◌}
use idpico.Errors.{wrapped}
use idpico.Domain.{User}
use idpico.Exec.{Exec, pure, rethrow, ◌>>=◌}
use idpico.Store.Groups
use idpico.Oidc.Types.{Claims, texts, set_extra}
use idpico.Oidc.Scope.{has_scope}

unfoldable pub group_names : String → Exec (List String)
group_names user_id = do
  groups ← rethrow (wrapped "failed to load groups") (Groups.groups_for_user user_id)
  pure (map (λ g. g.name) groups)

abbrev pub default_groups_claim : String
default_groups_claim = "groups"

abbrev put_groups : String → List String → Claims → Claims
put_groups claim_name names claims =
    if claim_name == default_groups_claim
    then record claims { groups = some names }
    else set_extra claim_name (texts names) claims

-- `none` is a nil `*GroupClaims`.
unfoldable pub apply : Option String → User → String → Claims → Exec Claims
apply none user scope claims = pure claims
apply (some claim_name) user scope claims =
    if has_scope scope "groups"
    then (do names ← group_names user.id; pure (put_groups claim_name names claims))
    else pure claims
