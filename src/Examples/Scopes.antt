-- ===== src/Examples/Scopes.antt =====
-- A union of scopes.
use idpico.Prelude.{◌≡◌, ◌||◌, [], ◌∷◌, mem_text}
use idpico.Oidc.Scope.{union_scopes}
use idpico.Oidc.Scope.Union.{mem-union_scopes}

mem-union_scopes_example :
    mem_text "email" (union_scopes ("openid" ∷ "email" ∷ []) ("email" ∷ []))
    ≡ (mem_text "email" ("openid" ∷ "email" ∷ []) || mem_text "email" ("email" ∷ []))
mem-union_scopes_example = mem-union_scopes "email" ("openid" ∷ "email" ∷ []) ("email" ∷ [])
