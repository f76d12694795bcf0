-- ===== src/Oidc/Scope.antt =====
-- `hasScope` of internal/oidc/groups.go, `scopeSubset` of token.go, `unionScopes` of consent.go.
pub mod Union
use idpico.Prelude.{String, Bool, List, [], ◌∷◌, ◌++◌, fields, mem_text, all, if◌then◌else◌}

unfoldable pub has_scope : String → String → Bool
has_scope scope want = mem_text want (fields scope)

unfoldable pub scope_subset : String → String → Bool
scope_subset requested granted = all (λ sc. mem_text sc (fields granted)) (fields requested)

-- `seen` holds what is in `out`.
distinct : List String → List String → List String
distinct seen [] = []
distinct seen (s ∷ rest) =
    let skip = distinct seen rest in
    let take = s ∷ distinct (s ∷ seen) rest in if mem_text s seen then skip else take

unfoldable pub union_scopes : List String → List String → List String
unfolding distinct
union_scopes a b = distinct [] (a ++ b)
