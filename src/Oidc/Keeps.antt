-- ===== src/Oidc/Keeps.antt =====
-- Which files the endpoints write: an invariant of the files is kept by every endpoint if it
-- survives the few writes that the endpoints make.
pub mod Endpoints
pub mod Clock
use idpico.Prelude.{ℕ, String, List, [], ◌∷◌, Option, none, some, subst, sym, arith}
use idpico.World.{Store, World}
use idpico.Domain.{Client, User, Token, AuthCode, Time}
use idpico.Exec.{Exec, Done}
use idpico.Exec.Inversion.{Same}
use idpico.Exec.Keeps.{Keeps, keeps_rules, Keeps-save, Keeps-if, Keeps-bind}
use idpico.Store.File.{File, clients, revocations}
use idpico.Store.Clients
use idpico.Store.Tokens
use idpico.Store.AuthCodes
use idpico.Store.Revocations
use idpico.Store.Users
use idpico.Store.Groups
use idpico.Oidc.Types.{Crypto, Claims}
use idpico.Oidc.ClientSecret.{authenticate_client, hash_client_secret, upgrade}
use idpico.Oidc.GroupClaims
use idpico.Oidc.GroupClaims.{group_names}
use idpico.Oidc.TokenService.{TokenService}
use idpico.Oidc.TokenService.Grant.{revoke_each, revoke_grant, issue_refresh_token, generate_tokens}
use idpico.Oidc.TokenService.Introspection.{identify_resource_server}
use idpico.Oidc.TokenService.Exchange.{identify_client, active_user}

-- `P` survives every write of the file.
abbrev pub Ignores : {A : Type 0} → (Store → Time → Type 0) → File A → Type 0
Ignores {A} P f = (s : Store) (t : Time) (x : A) → P s t → P (f.set s x) t

-- `P` survives the writes of the endpoints.
pub record Survives (P : Store → Time → Type 0) : Type 0 where
  pub on_clients : Ignores P clients
  pub on_revocations : Ignores P revocations
  pub on_revoke : (id : String) → Keeps P (Tokens.revoke id)
  pub on_rotate : (id : String) → Keeps P (Tokens.rotate id)
  pub on_create_token : (t : Token) → Keeps P (Tokens.create t)
  pub on_mark_used : (code : String) → Keeps P (AuthCodes.mark_used code)
  pub on_create_code : (c : AuthCode) → Keeps P (AuthCodes.create c)

module _ {P : Store → Time → Type 0} where
  -- An operation that changes no file keeps every invariant.
  pub Keeps-Same : {A : Type 0} (m : Exec A) → ((w : World) → Same w (m w).1) → Keeps P m
  Keeps-Same m same = record { at = λ w h. rw ((same w).store, (same w).now) h }

  Keeps-hash : (c : Crypto) (secret : String) → Keeps P (hash_client_secret c secret)
  unfolding hash_client_secret
  Keeps-hash c secret = record { at = λ w h. ground arith }

  pub client-Keeps : (id : String) → Keeps P (Clients.get_by_id id)
  unfolding Clients.get_by_id
  client-Keeps id = search keeps_rules

  token-Keeps : (id : String) → Keeps P (Tokens.get_by_id id)
  unfolding Tokens.get_by_id
  token-Keeps id = search keeps_rules

  tokens_of-Keeps : (user_id : String) → Keeps P (Tokens.list_by_user_id user_id)
  unfolding Tokens.list_by_user_id
  tokens_of-Keeps user_id = search keeps_rules

  code-Keeps : (code : String) → Keeps P (AuthCodes.get_by_code code)
  unfolding AuthCodes.get_by_code
  code-Keeps code = search keeps_rules

  user-Keeps : (id : String) → Keeps P (Users.get_by_id id)
  unfolding Users.get_by_id
  user-Keeps id = search keeps_rules

  groups-Keeps :
      (claim : Option String) (user : User) (scope : String) (c : Claims)
      → Keeps P (GroupClaims.apply claim user scope c)
  unfolding GroupClaims.apply group_names Groups.groups_for_user
  groups-Keeps none user scope c = search keeps_rules
  groups-Keeps (some name) user scope c = search keeps_rules depth 9

  active_user-Keeps : (id : String) → Keeps P (active_user id)
  unfolding active_user
  active_user-Keeps id = search (keeps_rules, user-Keeps)

  module _ (on_clients : Ignores P clients) where
    update-Keeps : (c : Client) → Keeps P (Clients.update c)
    unfolding Clients.update
    update-Keeps c = search (keeps_rules, Keeps-save, on_clients)

    upgrade-Keeps :
        (c : Crypto) (client : Client) (presented : String) → Keeps P (upgrade c client presented)
    unfolding upgrade
    upgrade-Keeps c client presented = search (keeps_rules, Keeps-hash, update-Keeps)

    pub authenticate_client-Keeps :
        (c : Crypto) (client : Client) (presented : String)
        → Keeps P (authenticate_client c client presented)
    unfolding authenticate_client
    authenticate_client-Keeps c client presented = search (keeps_rules, upgrade-Keeps)

    pub identify_client-Keeps :
        (s : TokenService) (id secret grant : String) → Keeps P (identify_client s id secret grant)
    unfolding identify_client
    identify_client-Keeps s id secret grant =
        search (keeps_rules, client-Keeps, authenticate_client-Keeps) depth 9

    pub identify_resource_server-Keeps :
        (s : TokenService) (id secret : String) → Keeps P (identify_resource_server s id secret)
    unfolding identify_resource_server
    identify_resource_server-Keeps s id secret =
        search (keeps_rules, client-Keeps, authenticate_client-Keeps) depth 15

  module _ (v : Survives P) where
    open v use {on_revocations, on_revoke}

    pub revoke_before-Keeps :
        (kind key : String) (t : Time) → Keeps P (Revocations.revoke_before kind key t)
    unfolding Revocations.revoke_before Revocations.upsert
    revoke_before-Keeps kind key t = search (keeps_rules, Keeps-save, on_revocations)

    pub revoke_each-Keeps :
        (client_id : String) (ts : List Token) → Keeps P (revoke_each client_id ts)
    unfolding revoke_each
    revoke_each-Keeps client_id [] = search keeps_rules
    revoke_each-Keeps client_id (t ∷ ts) =
        let rest = revoke_each-Keeps client_id ts in
        Keeps-if _ _ _ (λ _. rest) (λ _. Keeps-bind _ _ (on_revoke t.id) (λ _. rest))

    pub revoke_grant-Keeps :
        (s : TokenService) (user client : String) → Keeps P (revoke_grant s user client)
    unfolding revoke_grant
    revoke_grant-Keeps s user client =
        search (keeps_rules, tokens_of-Keeps, revoke_each-Keeps, revoke_before-Keeps) depth 9

  module _ (on_create_token : (t : Token) → Keeps P (Tokens.create t)) where
    issue-Keeps :
        (ttl : ℕ) (user : User) (client : Client) (scope : String)
        → Keeps P (issue_refresh_token ttl user client scope)
    unfolding issue_refresh_token
    issue-Keeps ttl user client scope = search (keeps_rules, on_create_token) depth 9

    id_token-Keeps :
        (s : TokenService) (sub aud : String) (ttl : ℕ) (c : Claims)
        → Keeps P (s.generator.generate_id_token_for sub aud ttl c)
    id_token-Keeps s sub aud ttl c = Keeps-Same _ (s.generator.id_token_same sub aud ttl c)

    access_token-Keeps :
        (s : TokenService) (sub : String) (ttl : ℕ) (c : Claims)
        → Keeps P (s.generator.generate_access_token_with_claims sub ttl c)
    access_token-Keeps s sub ttl c = Keeps-Same _ (s.generator.access_token_same sub ttl c)

    pub generate_tokens-Keeps :
        (s : TokenService) (user : User) (client : Client) (scope nonce : String) (at : Time)
        (amr : List String)
        → Keeps P (generate_tokens s user client scope nonce at amr)
    unfolding generate_tokens
    generate_tokens-Keeps s user client scope nonce at amr =
        search (keeps_rules, groups-Keeps, id_token-Keeps, access_token-Keeps, issue-Keeps) depth 20
