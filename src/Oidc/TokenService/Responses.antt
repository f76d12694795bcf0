-- ===== src/Oidc/TokenService/Responses.antt =====
-- What `generateTokens` puts in its response.
use idpico.Prelude.{String, ◌≡◌, ap, List}
use idpico.Domain.{User, Client, Time}
use idpico.World.{World}
use idpico.Exec.{ok}
use idpico.Exec.Inversion.{bind-ok, pure-ok}
use idpico.Oidc.Types.{TokenResponse}
use idpico.Oidc.TokenService.{TokenService}
use idpico.Oidc.TokenService.Grant.{generate_tokens}

pub response_scope :
    (s : TokenService) (user : User) (client : Client) (scope nonce : String) (at : Time)
    (amr : List String) (w : World) {resp : TokenResponse} {w' : World}
    → generate_tokens s user client scope nonce at amr w ≡ (ok resp, w')
    → resp.scope ≡ scope
unfolding generate_tokens
response_scope s user client scope nonce at amr w h =
    let (_, w₁, _, h₁) = bind-ok _ _ w h in
    let (_, w₂, _, h₂) = bind-ok _ _ w₁ h₁ in
    let (_, w₃, _, h₃) = bind-ok _ _ w₂ h₂ in
    let (_, w₄, _, h₄) = bind-ok _ _ w₃ h₃ in
    let (_, w₅, _, h₅) = bind-ok _ _ w₄ h₄ in
    ap (λ (r : TokenResponse). r.scope) (pure-ok _ w₅ h₅).0
