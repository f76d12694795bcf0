-- ===== src/Store/AuthCodes.antt =====
-- `authCodeRepository` of internal/store/file/file.go.
use idpico.Prelude.{
  String, true, [], ◌∷◌, ◌++◌, ◌==◌, find, any, keep, change_first, remove_first, if◌then◌else◌,
}
use idpico.Errors.{not_found, conflict}
use idpico.Domain.{AuthCode, after}
use idpico.Exec.{Exec, Done, raise, require, clock, ◌>>=◌}
use idpico.Store.File.{auth_codes, load, save}

unfoldable pub create : AuthCode → Exec Done
create code = do
  found ← load auth_codes "failed to load auth codes"
  now ← clock
  save auth_codes (found ++ record code { created_at = now } ∷ [])

unfoldable pub get_by_code : String → Exec AuthCode
get_by_code code = do
  found ← load auth_codes "failed to load auth codes"
  require (find (λ ac. ac.code == code) found) (not_found "auth code" code)

abbrev pub use_up : AuthCode → AuthCode
use_up ac = record ac { used = true }

unfoldable pub mark_used : String → Exec Done
mark_used code = do
  found ← load auth_codes "failed to load auth codes"
  ac ← require (find (λ a. a.code == code) found) (not_found "auth code" code)
  if ac.used
      then raise (conflict "auth code already used")
      else save auth_codes (change_first (λ a. a.code == code) use_up found)

unfoldable delete : String → Exec Done
delete code = do
  found ← load auth_codes "failed to load auth codes"
  let same_code = λ (a : AuthCode). a.code == code
  if any same_code found
      then save auth_codes (remove_first same_code found)
      else raise (not_found "auth code" code)

unfoldable pub delete_expired : Exec Done
delete_expired = do
  found ← load auth_codes "failed to load auth codes"
  now ← clock
  save auth_codes (keep (λ a. after a.expires_at now) found)
