-- ===== src/Auth/Account.antt =====
-- internal/auth/account.go: password reset and email verification through links.
pub mod Links
pub mod Reset
use Prim.Native.String.{◌++◌}
use mathlib.Core.List as Lists
use idpico.Prelude.{
  ◌/◌, ◌%◌, eqb, ◌*◌, ℕ, ◌+◌, String, Bool, true, false, not, ◌&&◌, ◌||◌, List, [], ◌∷◌, Option,
  none, some, ◌==◌, leb, ltb, keep, length, codes, trim_space, if◌then◌else◌,
}
use idpico.Prelude.Table.{Table, get_at, put_at}
use idpico.Errors.{
  Error, new, wrapped, foreign, invalid_input, is_code, code_not_found, code_token_invalid,
}
use idpico.Domain.{second, Time, User, VerificationToken, Message, after, vt_valid}
use idpico.World.{World}
use idpico.Exec.{
  Exec, Done, Result, ok, err, pure, raise, check, require, rethrow, ignore, branch, gets, clock,
  random_text, modify, ◌>>=◌, ◌>>◌,
}
use idpico.Store.Users
use idpico.Store.Sessions
use idpico.Store.Tokens
use idpico.Store.VerificationTokens
use idpico.Audit.{Event, record_event}
use idpico.Oidc.Types.{Crypto}
use idpico.Auth.Password.{hash_password}
use idpico.Auth.Service.SecondFactor.{store_user}

abbrev pub purpose_password_reset : String
purpose_password_reset = "password_reset"

abbrev purpose_email_verify : String
purpose_email_verify = "email_verify"

abbrev pub min_password_length : ℕ
min_password_length = 8

-- `reset_interval` is 0 where the throttle is off. `hash_token` is the hexadecimal SHA-256 of a text,
-- `query_escape` is `url.QueryEscape`, `print_int` is `fmt.Sprintf("%d", n)`, `print_duration` is
-- `d.String()`, and `send` is whether the mailer accepts a message.
pub record AccountService : Type 0 where
  pub crypto : Crypto
  pub base_url : String
  pub reset_ttl : ℕ
  pub verify_ttl : ℕ
  pub reset_interval : ℕ
  pub audit : Bool
  pub hash_token : String → String
  pub query_escape : String → String
  pub print_int : ℕ → String
  pub print_duration : ℕ → String
  pub send : Message → Bool

-- `now.Sub(at) < s.resetInterval`
abbrev recent : AccountService → Time → Time → Bool
recent s now at = ltb now (at + s.reset_interval)

abbrev swept : AccountService → Time → Table Time → Table Time
swept s now sent = if ltb 1000 (length sent) then keep (λ row. recent s now row.1) sent else sent

recently_sent : AccountService → Time → Option Time → Bool
recently_sent s now none = false
recently_sent s now (some at) = recent s now at

-- Whether a mail to the address is too early, and what is remembered of the mails after that.
unfoldable throttle : AccountService → String → Time → Table Time → Bool × Table Time
unfolding recently_sent
throttle s key now sent =
    let sent' = swept s now sent in
    if recently_sent s now (get_at sent' key) then (true, sent') else (false, put_at sent' key now)

unfoldable throttled : AccountService → String → Exec Bool
throttled s email = if leb s.reset_interval 0 then pure false else (do
  to_lower ← gets (λ w. w.host.to_lower)
  modify (λ m now.
      let (early, sent) = throttle s (to_lower (trim_space email)) now m.last_reset in
      (early, record m { last_reset = sent })))

-- `utf8.RuneCountInString` counts the code points.
unfoldable pub validate_password : String → Exec Done
validate_password password =
    check (leb min_password_length (length (codes password)))
      (invalid_input "password must be at least 8 characters")

unfoldable issue_token : AccountService → String → String → ℕ → Exec String
issue_token s user_id purpose ttl = do
  token ← random_text
  rethrow (wrapped "failed to clear old tokens")
      (VerificationTokens.delete_by_user_id user_id purpose)
  now ← clock
  rethrow (wrapped "failed to store token") (
      VerificationTokens.create (record {
        token_hash = s.hash_token token;
        user_id = user_id;
        purpose = purpose;
        created_at = 0;
        expires_at = now + ttl;
        used = false;
      }))
  pure token

abbrev invalid_link : Error
invalid_link = new code_token_invalid "this link is invalid or has expired"

abbrev link_error : Error → Error
link_error e = if is_code e code_not_found then invalid_link else wrapped "failed to load token" e

unfoldable pub consume_token : AccountService → String → String → Exec VerificationToken
consume_token s token purpose = do
  check (not (token == "")) invalid_link
  vt ← rethrow link_error (VerificationTokens.get_by_hash (s.hash_token token))
  now ← clock
  check (vt.purpose == purpose && vt_valid now vt) invalid_link
  rethrow (wrapped "failed to mark token used") (VerificationTokens.mark_used vt.token_hash)
  pure vt

-- Failures to revoke are logged and dropped, once the password is stored.
unfoldable pub set_password : AccountService → User → String → Exec User
set_password s user password = do
  validate_password password
  hash ← rethrow (wrapped "failed to hash password") (hash_password s.crypto password)
  stored ← store_user "failed to update user" (record user { password_hash = hash })
  ignore (Sessions.delete_by_user_id user.id)
  ignore (Tokens.revoke_by_user_id user.id)
  ignore (VerificationTokens.delete_by_user_id user.id purpose_password_reset)
  pure stored

abbrev account_event : Option User → String → String → String → Event
account_event actor email action id = record {
  actor = actor;
  actor_email = email;
  action = action;
  target_type = "user";
  target_id = id;
  detail = "";
  ip = "";
}

unfoldable pub reset_password : AccountService → String → String → Exec User
reset_password s token new_password = do
  validate_password new_password
  vt ← consume_token s token purpose_password_reset
  user ← rethrow (wrapped "failed to load user") (Users.get_by_id vt.user_id)
  stored ← set_password s user new_password
  record_event s.audit (account_event (some stored) "" "password.reset" stored.id)
  pure stored

abbrev display_name_of : User → String
display_name_of u = if u.display_name == "" then u.email else u.display_name

abbrev hour : ℕ
hour = 3600 * second

-- In days or hours where the duration is a number of these.
abbrev human_duration : AccountService → ℕ → String
human_duration s d =
    if leb (24 * hour) d && eqb (d % (24 * hour)) 0
    then if eqb (d / (24 * hour)) 1 then "1 day" else s.print_int (d / (24 * hour)) ++ " days"
    else if leb hour d && eqb (d % hour) 0
    then if eqb (d / hour) 1 then "1 hour" else s.print_int (d / hour) ++ " hours"
    else s.print_duration d

abbrev link : AccountService → String → String → String
link s path token = s.base_url ++ (path ++ ("?token=" ++ s.query_escape token))

reset_mail : AccountService → User → String → Message
reset_mail s user token = record {
  to = user.email;
  subject = "Reset your password";
  body =
      "Hello "
      ++ (display_name_of user
          ++ (",\n\nA password reset was requested for your account. Open the link below to choose a new password. It expires in "
              ++ (human_duration s s.reset_ttl
                  ++ (".\n\n"
                      ++ (link s "/reset-password" token
                          ++ "\n\nIf you did not request this, you can ignore this email.\n")))));
}

verify_mail : AccountService → User → String → Message
verify_mail s user token = record {
  to = user.email;
  subject = "Verify your email address";
  body =
      "Hello "
      ++ (display_name_of user
          ++ (",\n\nPlease confirm that "
              ++ (user.email
                  ++ (" is your email address by opening the link below. It expires in "
                      ++ (human_duration s s.verify_ttl
                          ++ (".\n\n" ++ (link s "/verify-email" token ++ "\n")))))));
}

-- A message that the mailer accepts is in the outbox.
unfoldable send_mail : AccountService → String → Message → Exec Done
send_mail s message mail w =
    if s.send mail
    then (ok tt, record w { outbox = Lists.◌++◌ w.outbox (mail ∷ []) })
    else (err (foreign message), w)

unfoldable send_password_reset : AccountService → User → Exec Done
send_password_reset s user = do
  token ← issue_token s user.id purpose_password_reset s.reset_ttl
  send_mail s "failed to send password reset email" (reset_mail s user token)
  record_event s.audit (account_event none user.email "password.reset_requested" user.id)

-- Nothing tells whether the address is known.
unfoldable request_password_reset : AccountService → String → Exec Done
request_password_reset s email =
    branch (Users.get_by_email email)
      (λ user. if not user.active then pure tt else (do
        early ← throttled s user.email
        if early then pure tt else send_password_reset s user))
      (λ e.
        if is_code e code_not_found then pure tt else raise (wrapped "failed to look up user" e))

unfoldable send_email_verification : AccountService → User → Exec Done
send_email_verification s user = do
  token ← issue_token s user.id purpose_email_verify s.verify_ttl
  send_mail s "failed to send verification email" (verify_mail s user token)

unfoldable verify_email : AccountService → String → Exec User
verify_email s token = do
  vt ← consume_token s token purpose_email_verify
  user ← rethrow (wrapped "failed to load user") (Users.get_by_id vt.user_id)
  stored ←
      if user.email_verified
      then pure user
      else store_user "failed to update user" (record user { email_verified = true })
  ignore (VerificationTokens.delete_by_user_id user.id purpose_email_verify)
  record_event s.audit (account_event (some stored) "" "email.verified" stored.id)
  pure stored
