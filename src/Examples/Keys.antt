-- ===== src/Examples/Keys.antt =====
-- Two signing keys, the second of which is made active.
use idpico.Prelude.{◌≡◌, refl, true, false, not, ◌&&◌, none, some, [], ◌∷◌, ◌==◌, find}
use idpico.Domain.{SigningKey}
use idpico.World.{World}
use idpico.Exec.{ok, ◌>>=◌}
use idpico.Store.File.{load, save}
use idpico.Store.SigningKeys.{activated, set_active, get_active}
use idpico.Store.SigningKeys.Activated.{set_active-get_active}
use idpico.Examples.{start}

abbrev old_key : SigningKey
old_key = record {
  id = "key-1";
  algorithm = "EdDSA";
  private_key = 1 ∷ [];
  public_key = 2 ∷ [];
  active = true;
  created_at = 1;
  expires_at = 900;
}

abbrev next_key : SigningKey
next_key = record old_key { id = "key-2"; active = false }

abbrev before_switch : World
before_switch = record start {
  store = record start.store { signing_keys = old_key ∷ next_key ∷ [] };
}

abbrev after_switch : World
after_switch = (set_active "key-2" before_switch).1

switched : set_active "key-2" before_switch ≡ (ok tt, after_switch)
unfolding set_active load save ◌>>=◌
switched = refl

set_active-get_active_example :
    (k : SigningKey) × (find (λ (x : SigningKey). x.id == "key-2") before_switch.signing_keys
      ≡ some k)
    × (get_active after_switch ≡ (ok (activated "key-2" k), after_switch))
    × (find (λ (x : SigningKey). x.active && not (x.id == "key-2")) after_switch.signing_keys
        ≡ none)
unfolding set_active load save ◌>>=◌
set_active-get_active_example =
    set_active-get_active "key-2" before_switch after_switch switched refl refl
