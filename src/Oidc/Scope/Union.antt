-- ===== src/Oidc/Scope/Union.antt =====
-- What a union of scopes holds.
use idpico.Prelude.{
  String, ◌≡◌, refl, ◌∙◌, ◌||◌, List, [], ◌∷◌, ◌++◌, eq_iff, mem_text, mem_text-append, arith,
}
use idpico.Oidc.Scope.{distinct, union_scopes}

mem-distinct :
    (t : String) (seen xs : List String)
    → (mem_text t seen || mem_text t (distinct seen xs)) ≡ (mem_text t seen || mem_text t xs)
unfolding distinct
mem-distinct t seen [] = refl
mem-distinct t seen (x ∷ xs) =
    ground (arith, mem-distinct t seen xs, mem-distinct t (x ∷ seen) xs, eq_iff x t)

-- The union of two lists of scopes holds what either of them holds.
pub mem-union_scopes :
    (t : String) (a b : List String)
    → mem_text t (union_scopes a b) ≡ (mem_text t a || mem_text t b)
unfolding union_scopes
mem-union_scopes t a b = mem-distinct t [] (a ++ b) ∙ mem_text-append t a b
