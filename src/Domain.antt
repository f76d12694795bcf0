-- ===== src/Domain.antt =====
-- internal/domain/types.go: the records of the program and the methods on them. A `time.Time` is
-- the number of nanoseconds since its zero value, and a `time.Duration` a number of nanoseconds.
use Prim.Native.String.{◌++◌}
use idpico.Prelude.Int.{ℤ, sub_ℕ}
use idpico.Prelude.{
  Option, ◌/◌, ℕ, ◌*◌, String, Bool, not, ◌&&◌, ◌||◌, List, [], ◌∷◌, ◌==◌, ltb, all, mem_text,
}

abbrev pub Time : Type 0
Time = ℕ

abbrev pub second : ℕ
second = 1_000_000_000

-- `t.Unix()`: the seconds since 1970, which is 62135596800 seconds after the zero time.
abbrev pub unix : Time → ℤ
unix t = sub_ℕ (t / second) 62135596800

-- `t.After(u)`
abbrev pub after : Time → Time → Bool
after t u = ltb u t

pub record User : Type 0 where
  pub id : String
  pub email : String
  pub password_hash : String
  pub display_name : String
  pub given_name : String
  pub family_name : String
  pub active : Bool
  pub email_verified : Bool
  pub admin : Bool
  pub totp_secret : String
  pub totp_last_step : ℤ
  pub recovery_codes : List String
  pub created_at : Time
  pub updated_at : Time

abbrev pub totp_enabled : User → Bool
totp_enabled u = not (u.totp_secret == "")

pub record Client : Type 0 where
  pub id : String
  pub secret : String
  pub name : String
  pub redirect_uris : List String
  pub grant_types : List String
  pub scopes : List String
  pub public : Bool
  pub skip_consent : Bool
  pub minimal_id_token : Bool
  pub access_token_ttl : ℕ
  pub refresh_token_ttl : ℕ
  pub created_at : Time
  pub updated_at : Time

-- The test on the list stands outside the function, so that the proofs can split on it.
allows_among : List String → String → Bool
allows_among [] grant_type = grant_type == "authorization_code" || grant_type == "refresh_token"
allows_among (g ∷ gs) grant_type = mem_text grant_type (g ∷ gs)

unfoldable pub allows_grant : Client → String → Bool
unfolding allows_among
allows_grant c grant_type = allows_among c.grant_types grant_type

pub record Consent : Type 0 where
  pub id : String
  pub user_id : String
  pub client_id : String
  pub scopes : List String
  pub granted_at : Time

unfoldable pub covers : Consent → List String → Bool
covers c scopes = all (λ s. mem_text s c.scopes) scopes

pub record VerificationToken : Type 0 where
  pub token_hash : String
  pub user_id : String
  pub purpose : String
  pub created_at : Time
  pub expires_at : Time
  pub used : Bool

pub record Session : Type 0 where
  pub id : String
  pub user_id : String
  pub created_at : Time
  pub expires_at : Time
  pub user_agent : String
  pub ip_address : String
  pub amr : List String

pub record AuthCode : Type 0 where
  pub code : String
  pub client_id : String
  pub user_id : String
  pub redirect_uri : String
  pub scope : String
  pub code_challenge : String
  pub code_challenge_method : String
  pub nonce : String
  pub auth_time : Time
  pub amr : List String
  pub created_at : Time
  pub expires_at : Time
  pub used : Bool

-- The kinds of a revocation: one access token, or all those of a user, of a user for a client, and
-- of a client.
abbrev pub revocation_jti : String
revocation_jti = "jti"

abbrev pub revocation_user : String
revocation_user = "user"

abbrev pub revocation_user_client : String
revocation_user_client = "user_client"

abbrev pub revocation_client : String
revocation_client = "client"

abbrev pub revocation_retention : ℕ
revocation_retention = 7 * 24 * 3600 * second

abbrev max_access_token_ttl : ℕ
max_access_token_ttl = 24 * 3600 * second

-- `userID + "\x00" + clientID`: the text in the middle holds the one character U+0000.
abbrev pub user_client_key : String → String → String
user_client_key user_id client_id = user_id ++ ("\0" ++ client_id)

pub record Revocation : Type 0 where
  pub kind : String
  pub key : String
  pub not_before : Time
  pub expires_at : Time

pub record Token : Type 0 where
  pub id : String
  pub user_id : String
  pub client_id : String
  pub scope : String
  pub created_at : Time
  pub expires_at : Time
  pub revoked : Bool

-- `IsValid` of a verification token.
abbrev pub vt_valid : Time → VerificationToken → Bool
vt_valid now t = not (after now t.expires_at) && not t.used

-- `IsExpired` of sessions, codes, tokens and verification tokens: the time is past `expires_at`.
abbrev pub is_expired : Time → Time → Bool
is_expired now expires_at = after now expires_at

abbrev pub is_valid : Time → Token → Bool
is_valid now t = not (is_expired now t.expires_at) && not t.revoked

pub record Group : Type 0 where
  pub id : String
  pub name : String
  pub description : String
  pub created_at : Time
  pub updated_at : Time

-- `credential` is the JSON text that the webauthn library makes of a credential.
pub record Passkey : Type 0 where
  pub id : String
  pub user_id : String
  pub name : String
  pub credential : String
  pub created_at : Time
  pub last_used_at : Time

pub record AuditEvent : Type 0 where
  pub id : String
  pub at : Time
  pub actor_id : String
  pub actor_email : String
  pub action : String
  pub target_type : String
  pub target_id : String
  pub detail : String
  pub ip : String

-- The fields of an `http.Cookie` that the program sets differently from one cookie to the next;
-- `max_age` is negative where the cookie is deleted.
pub record Cookie : Type 0 where
  pub name : String
  pub value : String
  pub path : String
  pub domain : String
  pub max_age : ℤ
  pub http_only : Bool
  pub secure : Bool
  pub strict : Bool

-- `pendingLogin` of internal/auth/secondfactor.go. `passkey` is the challenge, or `none` for nil.
pub record PendingLogin : Type 0 where
  pub user_id : String
  pub email : String
  pub expires : Time
  pub attempts : ℕ
  pub passkey : Option String

-- `mail.Message` of internal/mail/mail.go.
pub record Message : Type 0 where
  pub to : String
  pub subject : String
  pub body : String

pub record SigningKey : Type 0 where
  pub id : String
  pub algorithm : String
  pub private_key : List ℕ
  pub public_key : List ℕ
  pub active : Bool
  pub created_at : Time
  pub expires_at : Time
