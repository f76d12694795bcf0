-- ===== src/Store/Clients.antt =====
-- `clientRepository` of internal/store/file/file.go.
use idpico.Prelude.{
  String, List, [], ◌∷◌, ◌++◌, ◌==◌, find, any, change_first, remove_first, if◌then◌else◌,
}
use idpico.Errors.{already_exists, not_found}
use idpico.Domain.{Client}
use idpico.Exec.{Exec, Done, raise, require, clock, ◌>>=◌}
use idpico.Store.File.{clients, load, save}

unfoldable create : Client → Exec Done
create client = do
  found ← load clients "failed to load clients"
  now ← clock
  if any (λ c. c.id == client.id) found
      then raise (already_exists "client" client.id)
      else save clients (found ++ record client { created_at = now; updated_at = now } ∷ [])

unfoldable pub get_by_id : String → Exec Client
get_by_id id = do
  found ← load clients "failed to load clients"
  require (find (λ c. c.id == id) found) (not_found "client" id)

unfoldable pub update : Client → Exec Done
update client = do
  found ← load clients "failed to load clients"
  now ← clock
  let same_id = λ (c : Client). c.id == client.id
  if any same_id found
      then save clients (change_first same_id (λ _. record client { updated_at = now }) found)
      else raise (not_found "client" client.id)

unfoldable delete : String → Exec Done
delete id = do
  found ← load clients "failed to load clients"
  let same_id = λ (c : Client). c.id == id
  if any same_id found
      then save clients (remove_first same_id found)
      else raise (not_found "client" id)

list : Exec (List Client)
list = load clients "failed to load clients"
