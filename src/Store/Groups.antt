-- ===== src/Store/Groups.antt =====
-- `groupRepository` of internal/store/file/groups.go.
use Prim.Native.String
use Prim.Native.Nat.{Ordering}
use idpico.Prelude.{
  String, Bool, true, false, not, ◌&&◌, List, [], ◌∷◌, ◌++◌, map, Option, none, some, ◌==◌, find,
  any, keep, change_first, remove_first, if◌then◌else◌,
}
use idpico.Errors.{already_exists, not_found}
use idpico.Domain.{Group}
use idpico.World.{Host, Membership}
use idpico.Exec.{Exec, Done, pure, raise, require, clock, gets, ◌>>=◌, ◌>>◌}
use idpico.Store.File.{groups, load, save}
use idpico.Store.Sort.{sort}

-- The order of `sortGroups`: by name, in lower case.
abbrev before : Host → Group → Group → Bool
before h g k = elim (String.compare (h.to_lower g.name) (h.to_lower k.name)) [
  | Ordering.lt ↦ true
  | _ ↦ false
]

-- The loop of `Create` stops at the first group with the id or with the name.
clash : Group → (String → String → Bool) → List Group → Exec Done
clash group fold [] = pure tt
clash group fold (g ∷ gs) =
    let rest = clash group fold gs in
    if g.id == group.id
    then raise (already_exists "group" group.id)
    else if fold g.name group.name
    then raise (already_exists "group with name" group.name)
    else rest

unfoldable create : Group → Exec Done
unfolding clash
create group = do
  found ← load groups "failed to load groups"
  fold ← gets (λ w. w.host.equal_fold)
  clash group fold found.groups
  now ← clock
  save groups (record found {
    groups = found.groups ++ record group { created_at = now; updated_at = now } ∷ [];
  })

unfoldable get_by_id : String → Exec Group
get_by_id id = do
  found ← load groups "failed to load groups"
  require (find (λ g. g.id == id) found.groups) (not_found "group" id)

get_by_name : String → Exec Group
get_by_name name = do
  found ← load groups "failed to load groups"
  fold ← gets (λ w. w.host.equal_fold)
  require (find (λ g. fold g.name name) found.groups) (not_found "group with name" name)

update : Group → Exec Done
update group = do
  found ← load groups "failed to load groups"
  fold ← gets (λ w. w.host.equal_fold)
  now ← clock
  let same_id = λ (g : Group). g.id == group.id
  if any (λ g. not (same_id g) && fold g.name group.name) found.groups
      then raise (already_exists "group with name" group.name)
      else if any same_id found.groups
      then save groups (record found {
        groups = change_first same_id (λ _. record group { updated_at = now }) found.groups;
      })
      else raise (not_found "group" group.id)

unfoldable delete : String → Exec Done
delete id = do
  found ← load groups "failed to load groups"
  let same_id = λ (g : Group). g.id == id
  if any same_id found.groups
      then save groups (record {
        groups = remove_first same_id found.groups;
        memberships = keep (λ m. not (m.group_id == id)) found.memberships;
      })
      else raise (not_found "group" id)

list : Exec (List Group)
list = do
  found ← load groups "failed to load groups"
  h ← gets (λ w. w.host)
  pure (sort (before h) found.groups)

unfoldable add_member : String → String → Exec Done
add_member group_id user_id = do
  found ← load groups "failed to load groups"
  require (find (λ g. g.id == group_id) found.groups) (not_found "group" group_id)
  if any (λ m. m.group_id == group_id && m.user_id == user_id) found.memberships
      then pure tt
      else save groups (record found {
        memberships = found.memberships ++ record { user_id = user_id; group_id = group_id } ∷ [];
      })

remove_member : String → String → Exec Done
remove_member group_id user_id = do
  found ← load groups "failed to load groups"
  let same = λ (m : Membership). m.group_id == group_id && m.user_id == user_id
  if any same found.memberships
      then save groups (record found { memberships = remove_first same found.memberships })
      else raise (not_found "group membership" (String.◌++◌ user_id (String.◌++◌ "/" group_id)))

member_ids : String → Exec (List String)
member_ids group_id = do
  found ← load groups "failed to load groups"
  pure (map (λ m. m.user_id) (keep (λ m. m.group_id == group_id) found.memberships))

-- `byID` holds the last group of an id.
last_with_id : String → List Group → Option Group
last_with_id id [] = none
last_with_id id (g ∷ gs) = elim (last_with_id id gs) [
  | some h ↦ some h
  | none ↦ if g.id == id then some g else none
]

joined : String → List Group → List Membership → List Group
unfolding last_with_id
joined user_id gs [] = []
joined user_id gs (m ∷ ms) =
    let rest = joined user_id gs ms in
    if m.user_id == user_id
    then elim (last_with_id m.group_id gs) [ some g ↦ g ∷ rest | none ↦ rest ]
    else rest

unfoldable pub groups_for_user : String → Exec (List Group)
unfolding joined sort
groups_for_user user_id = do
  found ← load groups "failed to load groups"
  h ← gets (λ w. w.host)
  pure (sort (before h) (joined user_id found.groups found.memberships))

remove_user : String → Exec Done
remove_user user_id = do
  found ← load groups "failed to load groups"
  save groups
      (record found { memberships = keep (λ m. not (m.user_id == user_id)) found.memberships })
