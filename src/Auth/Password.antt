-- ===== src/Auth/Password.antt =====
-- `HashPassword` of internal/auth/password.go; Argon2id itself, and the text that it is written as, are
-- those of the crypto parameter.
use idpico.Prelude.{ℕ, ◌+◌, String}
use idpico.Errors.{foreign}
use idpico.Exec.{Exec, ok, require, ◌>>=◌}
use idpico.Oidc.Types.{Crypto}

-- 16 random bytes, by number.
unfoldable pub new_salt : Exec ℕ
new_salt w = (ok w.minted, record w { minted = w.minted + 1 })

unfoldable pub hash_password : Crypto → String → Exec String
hash_password c password = do
  n ← new_salt
  require (c.hash_password n password) (foreign "failed to generate salt")
