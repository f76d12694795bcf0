-- ===== src/Store/Sessions.antt =====
-- `sessionRepository` of internal/store/file/file.go.
use idpico.Prelude.{
  String, List, [], ◌∷◌, ◌++◌, ◌==◌, not, ◌&&◌, find, any, keep, remove_first, if◌then◌else◌,
}
use idpico.Errors.{not_found}
use idpico.Domain.{Session, after}
use idpico.Exec.{Exec, Done, pure, raise, require, clock, ◌>>=◌}
use idpico.Store.File.{sessions, load, save}
use idpico.Store.Sort.{newest_first}

unfoldable pub create : Session → Exec Done
create session = do
  found ← load sessions "failed to load sessions"
  now ← clock
  save sessions (found ++ record session { created_at = now } ∷ [])

unfoldable pub get_by_id : String → Exec Session
get_by_id id = do
  found ← load sessions "failed to load sessions"
  require (find (λ s. s.id == id) found) (not_found "session" id)

unfoldable pub delete : String → Exec Done
delete id = do
  found ← load sessions "failed to load sessions"
  let same_id = λ (s : Session). s.id == id
  if any same_id found
      then save sessions (remove_first same_id found)
      else raise (not_found "session" id)

unfoldable pub delete_by_user_id : String → Exec Done
delete_by_user_id user_id = do
  found ← load sessions "failed to load sessions"
  save sessions (keep (λ s. not (s.user_id == user_id)) found)

unfoldable pub delete_expired : Exec Done
delete_expired = do
  found ← load sessions "failed to load sessions"
  now ← clock
  save sessions (keep (λ s. after s.expires_at now) found)

list_by_user_id : String → Exec (List Session)
list_by_user_id user_id = do
  found ← load sessions "failed to load sessions"
  now ← clock
  pure (
      newest_first (λ s. s.created_at)
        (keep (λ s. s.user_id == user_id && after s.expires_at now) found))
