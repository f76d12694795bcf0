-- ===== src/Examples/SignIn/Passwords.antt =====
-- Sign-in with a password, and password reset.
use idpico.Prelude.{◌≡◌, refl, true, none, some, [], ◌∷◌, ◌==◌, arith, find}
use idpico.Prelude.Table.{get_at}
use idpico.Domain.{User, Session}
use idpico.World.{World}
use idpico.Exec.{ok, ◌>>=◌}
use idpico.Store.File.{load, save}
use idpico.Store.Users
use idpico.Store.Sessions
use idpico.Store.Passkeys
use idpico.Store.AuditEvents
use idpico.Store.VerificationTokens
use idpico.Audit.{record_event}
use idpico.Auth.Lockout.{entry_of, is_locked}
use idpico.Auth.Session.{create_session, get_session, get_session_from_request}
use idpico.Auth.Session.Live.{create_session-get_session}
use idpico.Auth.Csrf.{
  validate_token, validate_token_format, check_timestamp, generate_token, signed_token, clear_token,
}
use idpico.Auth.Csrf.Signed.{validate_token-ok, generate_token-validate_token}
use idpico.Auth.Service.{
  code_due, is_account_locked, authenticate, has_second_factor, after_password, await_code, login,
  get_current_user,
}
use idpico.Auth.Service.SignIn.{get_current_user-ok}
use idpico.Auth.Csrf.{csrf_cookie_name, form_token}
use idpico.Auth.Csrf.Signed.{IsSigned, validate_token-ok, generate_token-validate_token}
use idpico.Auth.Session.Live.{Carries, create_session-get_session}
use idpico.Auth.Session.{HttpRequest, create_session, get_session}
use idpico.Auth.Service.{get_current_user}
use idpico.Auth.Service.SignIn.{get_current_user-ok}
use idpico.Exec.Inversion.{Same}
use idpico.Auth.Account.{set_password, validate_password, reset_password, consume_token}
use idpico.Auth.Account.Reset.{Reset, reset_password-ok, reset_password-once}
use idpico.Domain.{User, Session, second}
use idpico.Auth.Csrf.{generate_token}
use idpico.Prelude.{◌*◌, ◌==◌, find, none, arith}
use idpico.Examples.SignIn.{
  scan_timestamp-print, reset_link, account_service, auth_service, csrf_service, bob, carol,
  request, evening,
}
use idpico.Auth.Password.{new_salt, hash_password}
use idpico.Auth.Service.SecondFactor.{store_user}

abbrev after_bob : World
after_bob = (login auth_service request "bob@example.org" "pw" evening).1

abbrev after_carol : World
after_carol = (login auth_service request "carol@example.org" "pw" evening).1

carol_waits_for_code :
    login auth_service request "carol@example.org" "pw" evening ≡ (ok (code_due carol), after_carol)
unfolding login validate_token validate_token_format check_timestamp ◌>>=◌ is_account_locked
    authenticate load Users.get_by_email has_second_factor after_password await_code clear_token
    is_locked get_at entry_of
carol_waits_for_code = refl

accepted : validate_token csrf_service request evening ≡ (ok tt, evening)
unfolding validate_token ◌>>=◌ get_at validate_token_format check_timestamp
accepted = refl

validate_token-ok_example :
    (get_at request.cookies (csrf_cookie_name csrf_service) ≡ some (form_token request))
    × IsSigned csrf_service (form_token request) evening.now
    × (evening ≡ evening)
validate_token-ok_example = validate_token-ok csrf_service request evening accepted

abbrev midnight : World
midnight = record evening { now = 62135596800 * second }

abbrev after_token : World
after_token = (generate_token csrf_service midnight).1

made_token : generate_token csrf_service midnight ≡ (ok ":random.signature", after_token)
unfolding generate_token ◌>>=◌ signed_token
made_token = refl

cookie_carried : get_at request.cookies (csrf_cookie_name csrf_service) ≡ some ":random.signature"
unfolding csrf_cookie_name get_at
cookie_carried = refl

generate_token-validate_token_example :
    validate_token csrf_service request evening ≡ (ok tt, evening)
generate_token-validate_token_example =
    generate_token-validate_token csrf_service request midnight evening made_token (λ x. refl)
      (λ x. refl) scan_timestamp-print refl cookie_carried refl (omega arith)

abbrev with_session : World
with_session =
    (create_session auth_service.sessions "bob" "browser" "192.0.2.1" ("pwd" ∷ []) evening).1

abbrev bobs_session : Session
bobs_session = record {
  id = "random";
  user_id = "bob";
  created_at = 62135596890 * second;
  expires_at = 62135600490 * second;
  user_agent = "browser";
  ip_address = "192.0.2.1";
  amr = "pwd" ∷ [];
}

session_made :
    create_session auth_service.sessions "bob" "browser" "192.0.2.1" ("pwd" ∷ []) evening
    ≡ (ok bobs_session, with_session)
unfolding create_session ◌>>=◌ Sessions.create load save
session_made = refl

sessions_empty : find (λ x. x.id == evening.host.random evening.minted) evening.sessions ≡ none
sessions_empty = refl

create_session-get_session_example :
    (bobs_session.id ≡ evening.host.random evening.minted)
    × (bobs_session.user_id ≡ "bob")
    × (get_session "random" with_session ≡ (ok bobs_session, with_session))
unfolding create_session ◌>>=◌ Sessions.create load save
create_session-get_session_example =
    create_session-get_session auth_service.sessions "bob" "browser" "192.0.2.1" ("pwd" ∷ [])
      evening with_session session_made sessions_empty refl (omega arith) quiet
  where
    quiet : with_session.faults ≡ []
    quiet = refl

abbrev returning : HttpRequest
returning = record request { cookies = ("idpico_session", "random") ∷ [] }

bob_is_back : get_current_user returning with_session ≡ (ok bob, with_session)
unfolding get_current_user ◌>>=◌ get_session_from_request get_at get_session Sessions.get_by_id load
    create_session Sessions.create save Users.get_by_id
bob_is_back = refl

get_current_user-ok_example :
    (session : Session) × Carries returning with_session session
    × (find (λ u. u.id == session.user_id) with_session.users ≡ some bob)
    × (bob.active ≡ true)
    × Same with_session with_session
get_current_user-ok_example = get_current_user-ok returning with_session bob_is_back

abbrev after_reset : World
after_reset = (reset_password account_service "link" "long enough" evening).1

abbrev bob_reset : User
bob_reset = record bob {
  password_hash = "$argon2id$long enough";
  updated_at = 62135596890 * second;
}

bob_resets :
    reset_password account_service "link" "long enough" evening ≡ (ok bob_reset, after_reset)
unfolding reset_password ◌>>=◌ validate_password consume_token VerificationTokens.get_by_hash load
    VerificationTokens.mark_used save Users.get_by_id set_password hash_password new_salt store_user
    Users.update record_event
bob_resets = refl

reset_password-ok_example : Reset account_service "link" "long enough" evening bob_reset after_reset
reset_password-ok_example =
    reset_password-ok account_service "link" "long enough" evening (omega arith) bob_resets

abbrev next_world : World
next_world = (consume_token account_service "link" "password_reset" after_reset).1

reset_password-once_example : ¬ (
    consume_token account_service "link" "password_reset" after_reset ≡ (ok reset_link, next_world))
reset_password-once_example =
    reset_password-once account_service "link" "long enough" "password_reset" evening after_reset
      (omega arith) bob_resets refl
