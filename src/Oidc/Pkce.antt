-- ===== src/Oidc/Pkce.antt =====
-- `ValidateCodeVerifier` of internal/oidc/authorize.go.
use idpico.Prelude.{String, Bool, false, ◌==◌, if◌then◌else◌}
use idpico.Oidc.Types.{Crypto}

unfoldable pub validate_code_verifier : Crypto → String → String → String → Bool
validate_code_verifier c code_verifier code_challenge method =
    if code_challenge == ""
    then code_verifier == ""
    else if code_verifier == ""
    then false
    else if method == "plain"
    then code_verifier == code_challenge
    else if method == "S256"
    then c.s256 code_verifier == code_challenge
    else false
