-- ===== src/Oidc/Types.antt =====
-- The requests and responses of internal/oidc/token.go, the claims of internal/crypto/jwt.go, and
-- what internal/oidc takes from internal/crypto, internal/auth and the standard library's hashes.
use idpico.Prelude.{ℕ, String, Bool, List, [], ◌∷◌, Option, none, ◌==◌, if◌then◌else◌}
use idpico.Prelude.Int.{ℤ}
use idpico.Domain.{Time}
use idpico.World.{World}
use idpico.Exec.{Exec}
use idpico.Exec.Inversion.{Same}

pub record TokenRequest : Type 0 where
  pub grant_type : String
  pub code : String
  pub redirect_uri : String
  pub client_id : String
  pub client_secret : String
  pub code_verifier : String
  pub refresh_token : String
  pub scope : String

pub record RevocationRequest : Type 0 where
  pub token : String
  pub token_type_hint : String
  pub client_id : String
  pub client_secret : String

pub record TokenResponse : Type 0 where
  pub access_token : String
  pub token_type : String
  pub expires_in : ℕ
  pub refresh_token : String
  pub id_token : String
  pub scope : String

-- The values that the program puts under an extra claim.
pub data Value : Type 0 where
  text : String → Value
  number : ℤ → Value
  texts : List String → Value

-- `groups` is `none` for a nil slice, and `expires_at` and `issued_at` are `none` for a nil date.
pub record Claims : Type 0 where
  pub email : String
  pub email_verified : Bool
  pub name : String
  pub groups : Option (List String)
  pub scope : String
  pub client_id : String
  pub extra : List (String × Value)
  pub issuer : String
  pub subject : String
  pub audience : List String
  pub expires_at : Option Time
  pub issued_at : Option Time
  pub id : String

-- `&crypto.Claims{}`
abbrev pub no_claims : Claims
no_claims = record {
  email = "";
  email_verified = Bool.false;
  name = "";
  groups = none;
  scope = "";
  client_id = "";
  extra = [];
  issuer = "";
  subject = "";
  audience = [];
  expires_at = none;
  issued_at = none;
  id = "";
}

put_extra : String → Value → List (String × Value) → List (String × Value)
put_extra name value [] = (name, value) ∷ []
put_extra name value ((n, v) ∷ rest) =
    if n == name then (n, value) ∷ rest else (n, v) ∷ put_extra name value rest

unfoldable pub set_extra : String → Value → Claims → Claims
unfolding put_extra
set_extra name value c = record c { extra = put_extra name value c.extra }

-- `s256` is the unpadded base64url text of the SHA-256 hash, `hash_password` the Argon2id hash under
-- the n-th random salt, and `verify_password` the check of a password against such a hash.
-- `issued_at_of` is `crypto.IssuedAtOf`, which reads a version 7 UUID.
pub record Crypto : Type 0 where
  pub s256 : String → String
  pub hash_password : ℕ → String → Option String
  pub verify_password : String → String → Option Bool
  pub issued_at_of : Claims → Time

-- What the endpoints use of `crypto.TokenGenerator`. None of its operations writes a file.
pub record TokenGenerator : Type 0 where
  pub generate_id_token_for : String → String → ℕ → Claims → Exec String
  pub generate_access_token_with_claims : String → ℕ → Claims → Exec String
  pub validate_access_token : String → Exec Claims
  pub parse_id_token_hint : String → Exec Claims
  pub id_token_same :
      (subject audience : String) (expiry : ℕ) (c : Claims) (w : World)
      → Same w (generate_id_token_for subject audience expiry c w).1
  pub access_token_same :
      (subject : String) (expiry : ℕ) (c : Claims) (w : World)
      → Same w (generate_access_token_with_claims subject expiry c w).1
  pub validate_same : (token : String) (w : World) → Same w (validate_access_token token w).1
  pub hint_same : (token : String) (w : World) → Same w (parse_id_token_hint token w).1
