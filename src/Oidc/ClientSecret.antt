-- ===== src/Oidc/ClientSecret.antt =====
-- internal/oidc/clientsecret.go: client secrets as Argon2id hashes, and as the plaintext that older
-- stores hold.
use idpico.Prelude.{
  ◌+◌, String, Bool, true, false, ◌||◌, Option, none, some, ◌==◌, text_prefix, if◌then◌else◌,
}
use idpico.Errors.{foreign}
use idpico.Domain.{Client}
use idpico.Exec.{Exec, Result, Done, ok, err, pure, ignore, branch, ◌>>◌}
use idpico.World.{World}
use idpico.Store.Clients
use idpico.Oidc.Types.{Crypto}

unfoldable pub is_hashed_client_secret : String → Bool
is_hashed_client_secret stored = text_prefix "$argon2id$" stored

-- Whether the secret matches, and whether the stored value is plaintext.
unfoldable pub verify_client_secret : Crypto → String → String → Bool × Bool
verify_client_secret c stored presented =
    if stored == "" || presented == ""
    then (false, false)
    else if is_hashed_client_secret stored
    then (elim (c.verify_password presented stored) [ some match ↦ match | none ↦ false ], false)
    else (stored == presented, true)

unfoldable pub hash_client_secret : Crypto → String → Exec String
hash_client_secret c secret w = salted (c.hash_password w.minted secret)
  where
    salted : Option String → Result String × World
    salted none = (err (foreign "failed to generate salt"), w)
    salted (some hash) = (ok hash, record w { minted = w.minted + 1 })

-- The plaintext is replaced by a hash; if that fails, the client is authenticated all the same.
unfoldable pub upgrade : Crypto → Client → String → Exec Done
upgrade c client presented =
    branch (hash_client_secret c presented)
      (λ hash. ignore (Clients.update (record client { secret = hash }))) (λ _. pure tt)

unfoldable pub authenticate_client : Crypto → Client → String → Exec Bool
authenticate_client c client presented =
    if client.public
    then pure true
    else let (matches, legacy) = verify_client_secret c client.secret presented in
      if matches
      then (if legacy then (do upgrade c client presented; pure true) else pure true)
      else pure false
