-- ===== src/World.antt =====
-- The state that the repositories of internal/store/file/file.go keep, and what the operating
-- system, the clock and the google/uuid package supply.
use idpico.Prelude.{ℕ, String, Bool, List, Option}
use idpico.Prelude.Table.{Table}
use idpico.Auth.Lockout.{LockoutService}
use idpico.Domain.{
  Time, User, Client, Session, AuthCode, Token, Revocation, Consent, VerificationToken, Group,
  Passkey, AuditEvent, SigningKey, Cookie, PendingLogin, Message,
}

-- `membership` and `groupsData` of internal/store/file/groups.go.
pub record Membership : Type 0 where
  pub user_id : String
  pub group_id : String

pub record GroupsData : Type 0 where
  pub groups : List Group
  pub memberships : List Membership

-- The JSON files of the data directory, one field for each.
pub record Store : Type 0 where
  pub users : List User
  pub clients : List Client
  pub sessions : List Session
  pub auth_codes : List AuthCode
  pub tokens : List Token
  pub revocations : List Revocation
  pub consents : List Consent
  pub verification_tokens : List VerificationToken
  pub groups_data : GroupsData
  pub passkeys : List Passkey
  pub audit_events : List AuditEvent
  pub signing_keys : List SigningKey

-- `uuid n` is the n-th identifier that `uuid.New` returns, and `random n` the n-th text that
-- `base64.RawURLEncoding` makes of 32 bytes of `rand.Read`. `equal_fold` and `to_lower` stand for
-- `strings.EqualFold` and `strings.ToLower`, which read the Unicode tables.
pub record Host : Type 0 where
  pub uuid : ℕ → String
  pub random : ℕ → String
  pub equal_fold : String → String → Bool
  pub to_lower : String → String

-- What the sign-in keeps in memory: `lockout` is `none` for a nil `*LockoutService`, `pending` is the
-- map of `pendingLogins`, and `last_reset` that of `AccountService`.
pub record Memory : Type 0 where
  pub lockout : Option LockoutService
  pub pending : Table PendingLogin
  pub last_reset : Table Time

-- `faults` tells of each read and each write of a file to come whether it fails; a read or write
-- after the end of the list succeeds. `minted` counts the identifiers and random texts that are used
-- up. `set_cookies` are the cookies that the handlers set, the newest last, and `outbox` the messages
-- that were sent.
pub record World : Type 0 where
  pub store : Store
  pub open store use *
  pub now : Time
  pub faults : List Bool
  pub minted : ℕ
  pub host : Host
  pub memory : Memory
  pub set_cookies : List Cookie
  pub outbox : List Message
