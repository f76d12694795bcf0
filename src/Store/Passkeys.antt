-- ===== src/Store/Passkeys.antt =====
-- `passkeyRepository` of internal/store/file/passkeys.go.
use idpico.Prelude.{
  String, not, List, [], ◌∷◌, ◌++◌, ◌==◌, ◌&&◌, any, keep, change_first, remove_first,
  if◌then◌else◌,
}
use idpico.Errors.{already_exists, not_found}
use idpico.Domain.{Passkey}
use idpico.Exec.{Exec, Done, pure, raise, clock, ◌>>=◌}
use idpico.Store.File.{passkeys, load, save}

create : Passkey → Exec Done
create p = do
  found ← load passkeys "failed to load passkeys"
  now ← clock
  if any (λ (q : Passkey). q.id == p.id) found
      then raise (already_exists "passkey" p.id)
      else save passkeys (found ++ record p { created_at = now } ∷ [])

unfoldable pub list_by_user_id : String → Exec (List Passkey)
list_by_user_id user_id = do
  found ← load passkeys "failed to load passkeys"
  pure (keep (λ p. p.user_id == user_id) found)

update : Passkey → Exec Done
update p = do
  found ← load passkeys "failed to load passkeys"
  let own = λ (q : Passkey). q.id == p.id && q.user_id == p.user_id
  if any own found
      then save passkeys (change_first own (λ _. p) found)
      else raise (not_found "passkey" p.id)

delete : String → String → Exec Done
delete user_id id = do
  found ← load passkeys "failed to load passkeys"
  let own = λ (q : Passkey). q.id == id && q.user_id == user_id
  if any own found then save passkeys (remove_first own found) else raise (not_found "passkey" id)

unfoldable pub delete_by_user_id : String → Exec Done
delete_by_user_id user_id = do
  found ← load passkeys "failed to load passkeys"
  save passkeys (keep (λ p. not (p.user_id == user_id)) found)
