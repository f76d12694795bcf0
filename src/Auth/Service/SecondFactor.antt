-- ===== src/Auth/Service/SecondFactor.antt =====
-- internal/auth/secondfactor.go: the second step of a sign-in, and the changes of the second factors.
pub mod Consumed
pub mod Reserved
pub mod Finished
pub mod Completed
use Prim.Native.String.{◌++◌}
use idpico.Prelude.{
  ℕ, ◌+◌, String, Bool, true, false, not, ◌&&◌, List, [], ◌∷◌, Option, none, some, ◌==◌, leb,
  trim_space, length, if◌then◌else◌,
}
use idpico.Prelude.Int.{ℤ, pos, negsuc}
use idpico.Prelude.Table.{get_at}
use idpico.Errors.{Error, new, wrapped, foreign, invalid_input, code_forbidden}
use idpico.Domain.{Time, User, PendingLogin, totp_enabled}
use idpico.World.{World}
use idpico.Exec.{
  Exec, Done, Result, ok, pure, raise, check, require, rethrow, branch, clock, modify, set_cookie,
  ◌>>=◌, ◌>>◌,
}
use idpico.Store.Users
use idpico.Store.Passkeys
use idpico.Audit.{record_event}
use idpico.Auth.Totp.{
  TotpCrypto, verify_totp, use_recovery_code, new_recovery_codes, recovery_code_count,
}
use idpico.Auth.Session.{HttpRequest}
use idpico.Auth.Csrf.{validate_token}
use idpico.Auth.Pending
use idpico.Auth.Pending.{pending_login_attempts}
use idpico.Auth.Service.{
  AuthService, is_account_locked, count_failure, has_second_factor, start_session, event_of,
  anonymous_event, pending_cookie, pending_cookie_name,
}

abbrev err_pending_login_expired : Error
err_pending_login_expired = foreign "sign-in expired; enter your password again"

abbrev err_invalid_code : Error
err_invalid_code = foreign "invalid code"

abbrev err_invalid_password : Error
err_invalid_password = foreign "current password is incorrect"

abbrev err_account_locked : Error
err_account_locked = foreign "account is temporarily locked"

-- `s.pending.remove` and `s.clearPendingCookie`.
unfoldable pub drop_pending : AuthService → String → Exec Done
drop_pending s token = do
  modify (λ m now. (tt, record m { pending = Pending.remove token m.pending }))
  set_cookie (pending_cookie s "" (negsuc 0))

unfoldable pub reserve_attempt : String → Exec (Option PendingLogin)
reserve_attempt token = modify (λ m now.
    let (found, entries) = Pending.reserve token now m.pending in
    (found, record m { pending = entries }))

-- What a reserved attempt is for: the token, the user and the attempts that are counted.
pub record Attempt : Type 0 where
  pub token : String
  pub user : User
  pub attempts : ℕ

unfoldable pub usable : AuthService → User → Exec Bool
usable s user = if user.active then has_second_factor s user else pure false

pub give_up : {A : Type 0} → AuthService → String → Exec A
give_up s token = do drop_pending s token; raise err_pending_login_expired

unfoldable pub load_pending_user : AuthService → String → PendingLogin → Exec Attempt
load_pending_user s token p =
    branch (Users.get_by_id p.user_id)
      (λ user. do
        fit ← usable s user
        if fit
            then pure (record { token = token; user = user; attempts = p.attempts })
            else give_up s token)
      (λ _. give_up s token)

unfoldable pub reserved : AuthService → String → Option PendingLogin → Exec Attempt
reserved s token none = do
  set_cookie (pending_cookie s "" (negsuc 0))
  raise err_pending_login_expired
reserved s token (some p) = do
  locked ← is_account_locked p.email
  if locked
      then (do drop_pending s token; raise (new code_forbidden "account is temporarily locked"))
      else load_pending_user s token p

unfoldable pub reserve_pending_attempt : AuthService → HttpRequest → Exec Attempt
reserve_pending_attempt s r = do
  rethrow (λ _. new code_forbidden "invalid CSRF token") (validate_token s.csrf r)
  token ← require (get_at r.cookies pending_cookie_name) err_pending_login_expired
  p ← reserve_attempt token
  reserved s token p

pub second_factor_failed : {A : Type 0} → AuthService → HttpRequest → Attempt → String → Exec A
second_factor_failed s r a detail = do
  count_failure a.user.email
  record_event s.audit (anonymous_event "login.failure" a.user.email a.user.id detail r)
  if leb pending_login_attempts a.attempts then give_up s a.token else raise err_invalid_code

unfoldable pub finish_pending_login :
    AuthService → HttpRequest → String → User → List String → Exec Done
finish_pending_login s r token user amr = do drop_pending s token; start_session s r user amr

-- The user as `Update` leaves it in memory, after the error that it may have.
unfoldable pub store_user : String → User → Exec User
store_user message user = do
  rethrow (wrapped message) (Users.update user)
  now ← clock
  pure (record user { updated_at = now })

abbrev pub codes_left : AuthService → List String → String
codes_left s rest = s.csrf.print_int (pos (length rest)) ++ " left"

pub spend_recovery_code :
    AuthService → HttpRequest → User → Option (List String) → Exec (User × Bool)
spend_recovery_code s r user none = pure (user, false)
spend_recovery_code s r user (some rest) = do
  stored ← store_user "failed to record recovery code use" (record user { recovery_codes = rest })
  record_event s.audit (event_of "totp.recovery_code_used" stored (codes_left s rest) r)
  pure (stored, true)

unfoldable pub spend_step :
    AuthService → HttpRequest → User → String → Option ℤ → Exec (User × Bool)
spend_step s r user code none =
    spend_recovery_code s r user (use_recovery_code s.totp user.recovery_codes code)
spend_step s r user code (some step) = do
  stored ← store_user "failed to record code use" (record user { totp_last_step = step })
  pure (stored, true)

abbrev step_of : AuthService → User → String → Time → Option ℤ
step_of s user code now =
    if totp_enabled user
    then verify_totp s.totp user.totp_secret code now user.totp_last_step
    else none

-- The user as it is stored, after the change, and whether the code is right. The lock of the user
-- makes the whole of it one step.
unfoldable pub consume_second_factor :
    AuthService → HttpRequest → User → String → Exec (User × Bool)
consume_second_factor s r user code = if trim_space code == "" then pure (user, false) else (do
  fresh ← Users.get_by_id user.id
  now ← clock
  spend_step s r fresh (trim_space code) (step_of s fresh (trim_space code) now))

unfoldable pub complete_second_factor : AuthService → HttpRequest → String → Exec User
complete_second_factor s r code = do
  a ← reserve_pending_attempt s r
  (user, right) ← consume_second_factor s r a.user code
  if right
      then (do finish_pending_login s r a.token user ("pwd" ∷ "otp" ∷ "mfa" ∷ []); pure user)
      else second_factor_failed s r (record a { user = user })
          "wrong authenticator or recovery code"

-- A check that is made from a signed-in session.
unfoldable guarded : User → Exec (User × Bool) → Error → Exec User
guarded user test wrong = do
  locked ← is_account_locked user.email
  if locked then raise err_account_locked else (do
    (user', right) ← test
    if right then pure user' else (do count_failure user'.email; raise wrong))

abbrev verified : Option Bool → Bool
verified none = false
verified (some b) = b

unfoldable verify_current_password : AuthService → User → String → Exec User
verify_current_password s user password =
    guarded user (pure (user, verified (s.crypto.verify_password password user.password_hash)))
      err_invalid_password

-- Ten codes and their hashes.
unfoldable fresh_codes : TotpCrypto → Exec (List String × List String)
fresh_codes k w = (
  ok (new_recovery_codes k recovery_code_count w.minted),
  record w { minted = w.minted + recovery_code_count },
)

unfoldable enable_totp :
    AuthService → HttpRequest → User → String → String → String → Exec (List String)
enable_totp s r user password secret code = do
  check (not (totp_enabled user))
      (invalid_input "an authenticator is already set up; turn it off first")
  verify_current_password s user password
  now ← clock
  step ← require (verify_totp s.totp secret code now (pos 0)) err_invalid_code
  (codes, hashes) ← fresh_codes s.totp
  let user' = record user {
    totp_secret = s.totp.to_upper secret;
    totp_last_step = step;
    recovery_codes = hashes;
  }
  Users.update user'
  record_event s.audit (event_of "totp.enabled" user' "" r)
  pure codes

abbrev clear_totp : User → User
clear_totp user = record user { totp_secret = ""; totp_last_step = pos 0 }

unfoldable disable_totp : AuthService → HttpRequest → User → String → Exec Done
disable_totp s r user code = do
  proven ← guarded user (consume_second_factor s r user code) err_invalid_code
  let user' = clear_totp proven
  due ← has_second_factor s user'
  let user'' = if due then user' else record user' { recovery_codes = [] }
  Users.update user''
  record_event s.audit (event_of "totp.disabled" user'' "" r)

unfoldable renew_recovery_codes :
    AuthService → HttpRequest → User → String → String → Exec (List String)
renew_recovery_codes s r user code password = do
  due ← has_second_factor s user
  check due (invalid_input "set up an authenticator app or a passkey first")
  proven ←
      if totp_enabled user
      then guarded user (consume_second_factor s r user code) err_invalid_code
      else verify_current_password s user password
  (codes, hashes) ← fresh_codes s.totp
  let user' = record proven { recovery_codes = hashes }
  Users.update user'
  record_event s.audit (event_of "totp.recovery_codes_renewed" user' "" r)
  pure codes

unfoldable reset_second_factors : User → Exec Done
reset_second_factors user = do
  Users.update (record (clear_totp user) { recovery_codes = [] })
  Passkeys.delete_by_user_id user.id
