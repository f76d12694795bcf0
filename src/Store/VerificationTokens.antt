-- ===== src/Store/VerificationTokens.antt =====
-- `verificationTokenRepository` of internal/store/file/consents.go.
pub mod Unique
use idpico.Prelude.{
  String, true, not, ◌&&◌, ◌||◌, [], ◌∷◌, ◌++◌, ◌==◌, find, any, keep, change_first, if◌then◌else◌,
}
use idpico.Errors.{already_exists, not_found}
use idpico.Domain.{VerificationToken, after}
use idpico.Exec.{Exec, Done, raise, require, clock, ◌>>=◌}
use idpico.Store.File.{verification_tokens, load, save}

unfoldable pub create : VerificationToken → Exec Done
create token = do
  found ← load verification_tokens "failed to load verification tokens"
  now ← clock
  if any (λ t. t.token_hash == token.token_hash) found
      then raise (already_exists "verification token" token.token_hash)
      else save verification_tokens (found ++ record token { created_at = now } ∷ [])

unfoldable pub get_by_hash : String → Exec VerificationToken
get_by_hash hash = do
  found ← load verification_tokens "failed to load verification tokens"
  require (find (λ t. t.token_hash == hash) found) (not_found "verification token" "")

-- Unlike `MarkUsed` of an authorization code, this one accepts a token that is used already.
unfoldable pub mark_used : String → Exec Done
mark_used hash = do
  found ← load verification_tokens "failed to load verification tokens"
  let same_hash = λ (t : VerificationToken). t.token_hash == hash
  if any same_hash found
      then save verification_tokens (change_first same_hash (λ t. record t { used = true }) found)
      else raise (not_found "verification token" "")

unfoldable pub delete_by_user_id : String → String → Exec Done
delete_by_user_id user_id purpose = do
  found ← load verification_tokens "failed to load verification tokens"
  let gone =
      λ (t : VerificationToken). t.user_id == user_id && (purpose == "" || t.purpose == purpose)
  save verification_tokens (keep (λ t. not (gone t)) found)

unfoldable pub delete_expired : Exec Done
delete_expired = do
  found ← load verification_tokens "failed to load verification tokens"
  now ← clock
  save verification_tokens (keep (λ t. after t.expires_at now) found)
