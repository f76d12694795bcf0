-- ===== src/Examples/SignIn/Codes.antt =====
-- Sign-in with a second factor.
use idpico.Prelude.{
  ◌≡◌, refl, ◌≤◌, ◌+◌, ◌*◌, true, none, some, [], ◌∷◌, List, ◌==◌, trim_space, if◌then◌else◌, ◌⊎◌,
}
use idpico.Prelude.Int.{pos}
use idpico.Prelude.Table.{delete_at, put_at, get_at}
use idpico.Domain.{User, PendingLogin, Time, second}
use idpico.World.{World}
use idpico.Exec.{ok, ◌>>=◌}
use idpico.Auth.Pending
use idpico.Auth.Pending.Attempts.{
  step_after, grants, Step, add, get, reserve, challenge, take, remove, total_grants,
  total_grants-le-five,
}
use idpico.Auth.Totp.{totp_code, totp_step, verify_totp, use_recovery_code, normalize_recovery_code}
use idpico.Auth.Totp.Accepted.{Matches, verify_totp-some}
use idpico.Auth.Totp.Spent.{count, use_recovery_code-count}
use idpico.Auth.Service.SecondFactor.{
  store_user, spend_step, consume_second_factor, complete_second_factor,
}
use idpico.Auth.Service.SecondFactor.Consumed.{StoredUser, Stepped, Spent, consume_second_factor-ok}
use idpico.Auth.Service.SecondFactor.Completed.{Completed, complete_second_factor-ok}
use idpico.Prelude.{trim_space}
use idpico.Prelude.Table.{get_at, put_at, delete_at}
use idpico.Exec.{◌>>=◌}
use idpico.Store.File.{load, save}
use idpico.Store.Users
use idpico.Store.Sessions
use idpico.Store.Passkeys
use idpico.Store.AuditEvents
use idpico.Audit.{record_event}
use idpico.Auth.Lockout.{entry_of, is_locked, record_success}
use idpico.Auth.Session.{create_session, rotate_session, set_session_cookie}
use idpico.Auth.Csrf.{validate_token, validate_token_format, check_timestamp, clear_token}
use idpico.Auth.Service.{is_account_locked, has_second_factor, start_session, clear_failures}
use idpico.Auth.Session.{create_session}
use idpico.Auth.Service.SecondFactor.{store_user}
use idpico.Prelude.Table.{put_at, delete_at}
use idpico.Auth.Lockout.{lockout_key, record_success}
use idpico.Auth.Service.SecondFactor.{
  reserve_pending_attempt, reserve_attempt, reserved, load_pending_user, usable,
  finish_pending_login, drop_pending,
}
use idpico.Examples.SignIn.{auth_service, plain_totp, bob, carol, request, evening}
use idpico.Store.Users.{update, get_by_id}
use idpico.Store.File.{save, load}

third_step : verify_totp plain_totp "SECRET" "000 003" (62135596890 * second) (pos 2) ≡ some (pos 3)
unfolding verify_totp trim_space totp_step totp_code
third_step = refl

verify_totp-some_example :
    Matches plain_totp "SECRET" "000 003" (62135596890 * second) (pos 2) (pos 3)
verify_totp-some_example =
    verify_totp-some plain_totp "SECRET" "000 003" (62135596890 * second) (pos 2) third_step

spent :
    use_recovery_code plain_totp ("other" ∷ "abcdefghij" ∷ []) "abcde-fghij" ≡ some ("other" ∷ [])
unfolding use_recovery_code normalize_recovery_code trim_space
spent = refl

use_recovery_code-count_example :
    count "abcdefghij" ("other" ∷ [])
      + (if plain_totp.hash_code (normalize_recovery_code plain_totp "abcde-fghij") == "abcdefghij"
          then 1
          else 0)
    ≡ count "abcdefghij" ("other" ∷ "abcdefghij" ∷ [])
use_recovery_code-count_example =
    use_recovery_code-count plain_totp ("other" ∷ "abcdefghij" ∷ []) "abcde-fghij" "abcdefghij"
      spent

-- Seven attempts for the login, and one for another.
abbrev guesses : List (Time × Step)
guesses =
    (1, reserve "pending")
    ∷ (2, get "pending")
    ∷ (3, reserve "pending")
    ∷ (4, add "other" bob)
    ∷ (5, reserve "pending")
    ∷ (6, challenge "pending" "challenge")
    ∷ (7, reserve "other")
    ∷ (8, reserve "pending")
    ∷ (9, take "pending")
    ∷ (10, reserve "pending")
    ∷ (11, reserve "pending")
    ∷ (12, remove "other")
    ∷ (13, reserve "pending")
    ∷ []

nothing_there : get_at {V = PendingLogin} [] "pending" ≡ none
unfolding get_at
nothing_there = refl

total_grants-le-five_example : total_grants "pending" guesses (Pending.add "pending" carol 0 []) ≤ 5
total_grants-le-five_example = total_grants-le-five "pending" carol 0 [] guesses nothing_there refl

five_granted : total_grants "pending" guesses (Pending.add "pending" carol 0 []) ≡ 5
unfolding total_grants grants Pending.reserve get_at Pending.add put_at step_after Pending.get
    Pending.set_passkey_challenge Pending.take_passkey_challenge Pending.remove delete_at
five_granted = refl

abbrev carol_stepped : User
carol_stepped = record carol { totp_last_step = pos 3; updated_at = 62135596890 * second }

abbrev after_code : World
after_code = (consume_second_factor auth_service request carol "000003" evening).1

code_taken :
    consume_second_factor auth_service request carol "000003" evening
    ≡ (ok (carol_stepped, true), after_code)
unfolding consume_second_factor trim_space ◌>>=◌ get_by_id load spend_step verify_totp totp_step
    totp_code store_user update save
code_taken = refl

consume_second_factor-ok_example :
    (fresh : User) × StoredUser "carol" evening fresh
    × StoredUser "carol" after_code carol_stepped
    × (Stepped auth_service (trim_space "000003") evening.now fresh carol_stepped
        ⊎ Spent auth_service (trim_space "000003") evening.now fresh carol_stepped)
consume_second_factor-ok_example =
    consume_second_factor-ok auth_service request carol "000003" evening code_taken

abbrev after_sign_in : World
after_sign_in = (complete_second_factor auth_service request "000003" evening).1

carol_signs_in :
    complete_second_factor auth_service request "000003" evening ≡ (ok carol_stepped, after_sign_in)
unfolding complete_second_factor reserve_pending_attempt reserve_attempt reserved load_pending_user
    usable finish_pending_login drop_pending Pending.reserve Pending.remove get_at put_at delete_at
    lockout_key record_success validate_token validate_token_format check_timestamp ◌>>=◌
    is_account_locked load save Users.get_by_email Passkeys.list_by_user_id has_second_factor
    start_session clear_failures rotate_session create_session Sessions.delete Sessions.create
    set_session_cookie clear_token record_event AuditEvents.append is_locked entry_of
    consume_second_factor trim_space get_by_id spend_step verify_totp totp_step totp_code store_user
    update
carol_signs_in = refl

complete_second_factor-ok_example :
    Completed auth_service request "000003" evening carol_stepped after_sign_in
complete_second_factor-ok_example =
    complete_second_factor-ok auth_service request "000003" evening carol_signs_in
