-- ===== src/Store/SigningKeys.antt =====
-- `signingKeyRepository` of internal/store/file/file.go.
pub mod Activated
use idpico.Prelude.{String, List, [], ◌∷◌, ◌++◌, ◌==◌, find, any, map, remove_first, if◌then◌else◌}
use idpico.Errors.{already_exists, not_found}
use idpico.Domain.{SigningKey}
use idpico.Exec.{Exec, Done, raise, require, clock, ◌>>=◌}
use idpico.Store.File.{signing_keys, load, save}

unfoldable create : SigningKey → Exec Done
create key = do
  found ← load signing_keys "failed to load signing keys"
  now ← clock
  if any (λ k. k.id == key.id) found
      then raise (already_exists "signing key" key.id)
      else save signing_keys (found ++ record key { created_at = now } ∷ [])

unfoldable pub get_by_id : String → Exec SigningKey
get_by_id id = do
  found ← load signing_keys "failed to load signing keys"
  require (find (λ k. k.id == id) found) (not_found "signing key" id)

unfoldable pub get_active : Exec SigningKey
get_active = do
  found ← load signing_keys "failed to load signing keys"
  require (find (λ k. k.active) found) (not_found "active signing key" "")

unfoldable get_all : Exec (List SigningKey)
get_all = load signing_keys "failed to load signing keys"

-- `id` alone is made active.
abbrev pub activated : String → SigningKey → SigningKey
activated id k = record k { active = k.id == id }

unfoldable pub set_active : String → Exec Done
set_active id = do
  found ← load signing_keys "failed to load signing keys"
  if any (λ k. k.id == id) found
      then save signing_keys (map (activated id) found)
      else raise (not_found "signing key" id)

unfoldable delete : String → Exec Done
delete id = do
  found ← load signing_keys "failed to load signing keys"
  let same_id = λ (k : SigningKey). k.id == id
  if any same_id found
      then save signing_keys (remove_first same_id found)
      else raise (not_found "signing key" id)
