-- ===== src/Store/Users.antt =====
-- `userRepository` of internal/store/file/file.go.
use idpico.Prelude.{
  String, Bool, List, [], ◌∷◌, ◌++◌, ◌==◌, find, any, change_first, remove_first, if◌then◌else◌,
}
use idpico.Errors.{already_exists, not_found}
use idpico.Domain.{User}
use idpico.Exec.{Exec, Done, pure, raise, require, clock, gets, ◌>>=◌, ◌>>◌}
use idpico.Store.File.{users, load, save}

-- The loop of `Create` stops at the first user with the id or with the address.
clash : User → (String → String → Bool) → List User → Exec Done
clash user fold [] = pure tt
clash user fold (u ∷ us) =
    let rest = clash user fold us in
    if u.id == user.id
    then raise (already_exists "user" user.id)
    else if fold u.email user.email
    then raise (already_exists "user with email" user.email)
    else rest

unfoldable pub create : User → Exec Done
unfolding clash
create user = do
  found ← load users "failed to load users"
  fold ← gets (λ w. w.host.equal_fold)
  clash user fold found
  now ← clock
  save users (found ++ record user { created_at = now; updated_at = now } ∷ [])

unfoldable pub get_by_id : String → Exec User
get_by_id id = do
  found ← load users "failed to load users"
  require (find (λ u. u.id == id) found) (not_found "user" id)

unfoldable pub get_by_email : String → Exec User
get_by_email email = do
  found ← load users "failed to load users"
  fold ← gets (λ w. w.host.equal_fold)
  require (find (λ u. fold u.email email) found) (not_found "user with email" email)

unfoldable pub update : User → Exec Done
update user = do
  found ← load users "failed to load users"
  now ← clock
  let same_id = λ (u : User). u.id == user.id
  if any same_id found
      then save users (change_first same_id (λ _. record user { updated_at = now }) found)
      else raise (not_found "user" user.id)

unfoldable delete : String → Exec Done
delete id = do
  found ← load users "failed to load users"
  let same_id = λ (u : User). u.id == id
  if any same_id found then save users (remove_first same_id found) else raise (not_found "user" id)

list : Exec (List User)
list = load users "failed to load users"
