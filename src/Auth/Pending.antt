-- ===== src/Auth/Pending.antt =====
-- `pendingLogins` of internal/auth/secondfactor.go: logins whose password was accepted and whose code
-- is due. Each operation runs under the mutex, so it is one step.
pub mod Attempts
pub mod Granted
use idpico.Prelude.{
  ℕ, ◌+◌, ◌*◌, String, Bool, true, false, not, ◌||◌, List, [], ◌∷◌, Option, none, some, leb, keep,
  if◌then◌else◌,
}
use idpico.Prelude.Table.{Table, get_at, put_at, delete_at}
use idpico.Domain.{Time, User, PendingLogin, after, second}

abbrev pending_login_ttl : ℕ
pending_login_ttl = 300 * second

abbrev pub pending_login_attempts : ℕ
pending_login_attempts = 5

-- The entries that are still in time, with the new one.
unfoldable pub add : String → User → Time → Table PendingLogin → Table PendingLogin
add token user now entries =
    put_at (keep (λ e. not (after now e.1.expires)) entries) token (record {
      user_id = user.id;
      email = user.email;
      expires = now + pending_login_ttl;
      attempts = 0;
      passkey = none;
    })

get_of :
    String
    → Time
    → Table PendingLogin
    → Option PendingLogin
    → Option PendingLogin × Table PendingLogin
get_of token now entries none = (none, delete_at entries token)
get_of token now entries (some e) =
    if after now e.expires then (none, delete_at entries token) else (some e, entries)

unfoldable pub get : String → Time → Table PendingLogin → Option PendingLogin × Table PendingLogin
unfolding get_of
get token now entries = get_of token now entries (get_at entries token)

abbrev pub counted : PendingLogin → PendingLogin
counted e = record e { attempts = e.attempts + 1 }

reserve_of :
    String
    → Time
    → Table PendingLogin
    → Option PendingLogin
    → Option PendingLogin × Table PendingLogin
reserve_of token now entries none = (none, delete_at entries token)
reserve_of token now entries (some e) =
    if after now e.expires || leb pending_login_attempts e.attempts
    then (none, delete_at entries token)
    else (some (counted e), put_at entries token (counted e))

-- An attempt is counted before the code is checked.
unfoldable pub reserve :
    String → Time → Table PendingLogin → Option PendingLogin × Table PendingLogin
unfolding reserve_of
reserve token now entries = reserve_of token now entries (get_at entries token)

challenge_of :
    String → Time → String → Table PendingLogin → Option PendingLogin → Bool × Table PendingLogin
challenge_of token now challenge entries none = (false, entries)
challenge_of token now challenge entries (some e) =
    if after now e.expires
    then (false, entries)
    else (true, put_at entries token (record e { passkey = some challenge }))

unfoldable pub set_passkey_challenge :
    String → Time → String → Table PendingLogin → Bool × Table PendingLogin
unfolding challenge_of
set_passkey_challenge token now challenge entries =
    challenge_of token now challenge entries (get_at entries token)

take_of : String → Table PendingLogin → Option PendingLogin → Option String × Table PendingLogin
take_of token entries none = (none, entries)
take_of token entries (some e) = (e.passkey, put_at entries token (record e { passkey = none }))

unfoldable pub take_passkey_challenge :
    String → Table PendingLogin → Option String × Table PendingLogin
unfolding take_of
take_passkey_challenge token entries = take_of token entries (get_at entries token)

unfoldable pub remove : String → Table PendingLogin → Table PendingLogin
remove token entries = delete_at entries token
