-- ===== src/Store/SigningKeys/Activated.antt =====
-- What an activated signing key is.
use idpico.Prelude.{
  arith, true, none, some, String, ◌≡◌, refl, inl, inr, ap, ◌∙◌, not, ◌&&◌, List, [], ◌∷◌, ◌==◌,
  find, any, map, Bool-cases,
}
use idpico.Domain.{SigningKey}
use idpico.World.{World, Store}
use idpico.Exec.{Done, ok, ◌>>=◌}
use idpico.Exec.Inversion.{bind-ok, raise-ok}
use idpico.Store.File.{signing_keys, load, load-ok, save-ok}
use idpico.Store.SigningKeys.{activated, set_active, get_active}

-- The first key with the identifier, which is the first active one afterwards.
find-activated :
    (id : String) (xs : List SigningKey)
    → any (λ k. k.id == id) xs ≡ true
    → (k : SigningKey) × (find (λ k. k.id == id) xs ≡ some k)
      × (find (λ k. k.active) (map (activated id) xs) ≡ some (activated id k))
find-activated id [] h = absurd (ground arith)
find-activated id (x ∷ xs) h = elim (Bool-cases (x.id == id)) [
  | inl same ↦ (x, rw same refl, rw same refl)
  | inr other ↦
      let (k, found, active) = find-activated id xs (rw other at h) in
      (k, rw other found, rw other active)
]

find-others :
    (id : String) (xs : List SigningKey)
    → find (λ k. k.active && not (k.id == id)) (map (activated id) xs) ≡ none
find-others id [] = refl
find-others id (x ∷ xs) = elim (Bool-cases (x.id == id)) [
  | inl same ↦ rw same (find-others id xs)
  | inr other ↦ rw other (find-others id xs)
]

set_active-ok :
    (id : String) (w : World) {u : Done} {w' : World}
    → set_active id w ≡ (ok u, w')
    → (any (λ k. k.id == id) w.signing_keys ≡ true)
      × (w'.signing_keys ≡ map (activated id) w.signing_keys)
unfolding set_active
set_active-ok id w h =
    let (xs, w₁, l, r) = bind-ok _ _ w h in
    let (stored, _) = load-ok signing_keys _ w l in
    elim (Bool-cases (any (λ k. k.id == id) xs)) [
      | inr none_there ↦ absurd (raise-ok _ w₁ (rw none_there at r))
      | inl there ↦
          let wrote = save-ok signing_keys _ w₁ (rw there at r) in
          (
            rw stored at there,
            ap (λ (s : Store). s.signing_keys) wrote.store ∙ ap (map (activated id)) stored,
          )
    ]

get_active-quiet :
    (v : World) {key : SigningKey}
    → find (λ k. k.active) v.signing_keys ≡ some key
    → v.faults ≡ []
    → get_active v ≡ (ok key, v)
unfolding get_active load ◌>>=◌
get_active-quiet v found quiet = ground arith

-- The key that is made active is the active key from then on, as long as the keys stay as they are
-- and no read fails: it is the key that was stored under the identifier, marked as active, and no key
-- with another identifier is active.
pub set_active-get_active :
    (id : String) (w v : World) {u : Done} {w' : World}
    → set_active id w ≡ (ok u, w')
    → v.signing_keys ≡ w'.signing_keys
    → v.faults ≡ []
    → (k : SigningKey) × (find (λ k. k.id == id) w.signing_keys ≡ some k)
      × (get_active v ≡ (ok (activated id k), v))
      × (find (λ k. k.active && not (k.id == id)) v.signing_keys ≡ none)
set_active-get_active id w v h kept quiet =
    let (there, wrote) = set_active-ok id w h in
    let (k, found, active) = find-activated id w.signing_keys there in
    let same = kept ∙ wrote in
    (k, found, get_active-quiet v (rw same active) quiet, rw same (find-others id w.signing_keys))
