-- ===== src/Lib.antt =====
-- idpico, an OpenID Connect provider: sign-in with its second factor, the token, authorization,
-- revocation, introspection, userinfo and logout endpoints, over the store of JSON files, the
-- consent service, password resets, and the maintenance of the store.
--
-- The parts and how they interact. A client sends a user to the authorization endpoint
-- (internal/oidc/authorize.go), which checks the request against the stored client and issues
-- an authorization code; the token endpoint (internal/oidc/token.go) exchanges the code, once,
-- for an ID token, an access token and a refresh token, and a refresh token, once, for the next
-- ones. A second use of either cuts the grant off: the refresh tokens of the user under the
-- client are revoked, and a row of the revocations rejects the access tokens issued by then,
-- which introspection consults. A user signs in through internal/auth: the service checks the
-- CSRF token, the lockout and the password, and then starts a session, whose token a cookie
-- carries, or, for a user with a second factor, enters a pending login that five codes may be
-- tried for. A forgotten password is reset by a link that is mailed. All state is in the
-- repositories of internal/store/file; the failed sign-ins, the pending logins and the times of
-- the last mails are in memory. The maintenance deletes what is out of date.
--
-- Files:
--   Errors, Domain: internal/errors/errors.go and internal/domain/types.go, one constructor or
--     record for each of the errors and structs that the parts below use.
--   World: the contents of the JSON files, the memory, the clock, the cookies and mails that
--     went out, and what the system supplies.
--   Exec: operations that read and write the files and may return an error (`Result`), with
--     `>>=` for `if err != nil { return err }`; Exec/Inversion has what a successful run tells
--     of its parts, Exec/Keeps the rules by which a run keeps an invariant, and Exec/Pending
--     those by which it keeps the pending logins.
--   Store/File: readFile and writeFile of internal/store/file/file.go. Store/Users, Clients,
--     Sessions, AuthCodes, Tokens, SigningKeys: the repositories of that file;
--     Store/Revocations, Consents, VerificationTokens, Groups, Passkeys, AuditEvents: those of
--     revocations.go, consents.go, groups.go, passkeys.go and audit.go beside it. Each has a
--     function for each method, under the method's name. Store/Sort is sort.Slice. Store/Fetch
--     and Store/Revocations/Rejection are proofs.
--   Oidc/Authorize: ParseAuthorizeQuery, RequiresFreshLogin, ValidateClient and CreateAuthCode
--     of internal/oidc/authorize.go (Oidc/Authorize/Number is strconv.Atoi), Oidc/Pkce its
--     ValidateCodeVerifier; Oidc/Authorize/Validated, FreshLogin and Issued are proofs.
--   Oidc/ClientSecret, ConsentService, GroupClaims, Scope: internal/oidc/clientsecret.go,
--     consent.go, groups.go, and the functions on scopes of these and of token.go.
--   Oidc/TokenService/Grant, Exchange, Refresh, Revocation, Introspection:
--     internal/oidc/token.go, HandleAuthorizationCode in Exchange, HandleRefreshToken in
--     Refresh, HandleRevocation in Revocation, introspect in Introspection, and the parts that
--     they share in Grant. The checks of a handler that stand in one Go function are several
--     definitions here, composed in the order of the code. Caller, Accepted, Exchanged,
--     Refreshed, Responses, CutOff and Introspected are proofs.
--   Oidc/UserInfo, Oidc/Logout: internal/oidc/userinfo.go and logout.go; UserInfo/Disclosed and
--     Logout/Redirected are proofs.
--   Oidc/Keeps, Oidc/Retired, Oidc/History: which files the endpoints write, and histories of
--     requests to all of them (internal/http/oidc.go routes these to the handlers).
--   Http/Requests: ParseTokenRequest and its siblings of internal/oidc/token.go.
--     Http/Endpoints: Token, Revoke, Introspect and UserInfo of internal/http/oidc.go;
--     Endpoints/Answers is a proof.
--   Auth/Lockout, Session, Csrf, Totp, Password, Account: the files of these names in
--     internal/auth. Auth/Pending: the pendingLogins of internal/auth/secondfactor.go, and
--     Auth/Service/SecondFactor the rest of that file. Auth/Service: internal/auth/service.go,
--     and hasSecondFactor of passkeys.go. Auth/Keeps and the modules below the others are
--     proofs.
--   Audit: internal/audit/audit.go. Maintenance: RunOnce and maintainKeys of
--     internal/maintenance/maintenance.go; Maintenance/Unexpired is a proof.
--   Examples: a small provider and runs of it.
--
-- Choices. A time.Time is the number of nanoseconds since its zero value, and a duration, where
-- the code keeps it non-negative, a number of nanoseconds; where a duration may wrap around or
-- be negative (RequiresFreshLogin) it is an integer with the 64-bit wrap-around written out.
-- The clock stands still during a request and moves between requests. A history lists, for
-- every request, which of its reads and writes fail: a failed write leaves the file as it was,
-- and earlier writes of the request stay. Requests are served one after the other;
-- interleavings of two requests are not modelled. A recursion is structural, on a list, a text
-- or a count: no fuel is used anywhere.
--
-- The handlers take what net/http has read of a request: the form and header fields, cookies
-- and remote address that the code looks at. Random texts are numbered in the order in which
-- they are drawn, and nothing is said of how they look.
--
-- Parameters: the UUIDs of google/uuid, strings.ToLower and strings.EqualFold, which read the
-- Unicode tables, SHA-256, Argon2id and HMAC, base32 and base64, the parsing and printing of
-- URLs, numbers and durations, the mail server, crypto.IssuedAtOf, and the token generator of
-- internal/crypto. The generator is an interface: each of its operations may succeed or fail in
-- any way, and its one law is that it changes neither the files nor the clock. The key service
-- of internal/crypto, which the maintenance calls, is another: it changes no file but that of
-- the signing keys.
--
-- Not modelled: the authorization and login pages, routing and middleware, internal/crypto
-- behind the interfaces, with its own key pairs, the ceremonies of passkeys
-- (internal/auth/passkeys.go), the SQLite store, configuration and metrics.
pub mod Prelude
pub mod Errors
pub mod Domain
pub mod World
pub mod Exec
pub mod Store
pub mod Oidc
pub mod Audit
pub mod Auth
pub mod Http
pub mod Maintenance
pub mod Examples
