-- ===== src/Oidc/Logout.antt =====
-- internal/oidc/logout.go: where the user agent goes after a logout.
pub mod Redirected
use idpico.Prelude.{
  String, Bool, not, List, [], ◌∷◌, Option, none, some, ◌==◌, ◌&&◌, mem_text, if◌then◌else◌,
}
use idpico.Prelude.Table.{Table, put_at}
use idpico.Errors.{invalid_input}
use idpico.Domain.{Client}
use idpico.Exec.{Exec, pure, raise, check, require, rethrow, ◌>>=◌, ◌>>◌}
use idpico.Store.Clients
use idpico.Oidc.TokenService.{TokenService}

-- What the program uses of net/url: a URL is its query between the texts in front of it and behind it,
-- and `query` and `encode` read and print a query.
pub record Url : Type 0 where
  pub front : String
  pub raw_query : String
  pub behind : String

pub record UrlPackage : Type 0 where
  pub parse : String → Option Url
  pub print : Url → String
  pub query : String → Table (List String)
  pub encode : Table (List String) → String

unfoldable pub registered_redirect : Client → String → Bool
registered_redirect client uri = mem_text uri client.redirect_uris

-- The only member of the audience.
abbrev single : List String → Option String
single [] = none
single (a ∷ []) = some a
single (a ∷ b ∷ rest) = none

unfoldable pub hinted_client : TokenService → String → String → Exec String
hinted_client s id_token_hint client_id = do
  claims ←
      rethrow (λ _. invalid_input "invalid id_token_hint")
        (s.generator.parse_id_token_hint id_token_hint)
  audience ←
      require (single claims.audience) (invalid_input "id_token_hint must have a single audience")
  if not (client_id == "") && not (client_id == audience)
      then raise (invalid_input "client_id does not match id_token_hint")
      else pure audience

-- The relying party that the request names.
unfoldable pub named_client : TokenService → String → String → Exec String
named_client s id_token_hint client_id =
    if id_token_hint == "" then pure client_id else hinted_client s id_token_hint client_id

-- The URI with `state` appended.
unfoldable pub with_state : UrlPackage → String → Url → String
with_state urls state u =
    if state == ""
    then urls.print u
    else urls.print (record u {
      raw_query = urls.encode (put_at (urls.query u.raw_query) "state" (state ∷ []));
    })

unfoldable pub post_logout_redirect :
    UrlPackage → TokenService → String → String → String → String → Exec String
post_logout_redirect urls s id_token_hint client_id redirect_uri state = do
  id ← named_client s id_token_hint client_id
  check (not (id == ""))
      (invalid_input "post_logout_redirect_uri requires id_token_hint or client_id")
  client ← rethrow (λ _. invalid_input "unknown client") (Clients.get_by_id id)
  check (registered_redirect client redirect_uri)
      (invalid_input "post_logout_redirect_uri is not registered for the client")
  u ← require (urls.parse redirect_uri) (invalid_input "invalid post_logout_redirect_uri")
  pure (with_state urls state u)
