-- ===== src/Oidc/TokenService/Caller.antt =====
-- What it takes to be identified as a client, and what that changes.
use idpico.Prelude.{String, ◌≡◌, refl, ap, subst, ◌⊎◌, true, some, ◌==◌, find, arith}
use idpico.Domain.{Time, Client, allows_grant}
use idpico.World.{Store, World}
use idpico.Exec.{ok, ◌>>=◌}
use idpico.Exec.Inversion.{bind-ok, check-ok, pure-ok, rethrow-ok}
use idpico.Store.File.{clients}
use idpico.Store.Fetch.{client-fetched}
use idpico.Oidc.Types.{Crypto}
use idpico.Oidc.ClientSecret.{verify_client_secret, authenticate_client}
use idpico.Oidc.TokenService.{TokenService}
use idpico.Oidc.TokenService.Exchange.{identify_client}
use idpico.Oidc.Keeps.{Ignores, identify_client-Keeps}

-- The caller is public, or presents the secret.
abbrev pub IsAuthentic : Crypto → Client → String → Type 0
IsAuthentic c client presented =
    (client.public ≡ true) ⊎ ((verify_client_secret c client.secret presented).0 ≡ true)

pub authenticate_client-IsAuthentic :
    (c : Crypto) (client : Client) (presented : String) (w : World) {w' : World}
    → authenticate_client c client presented w ≡ (ok true, w')
    → IsAuthentic c client presented
unfolding authenticate_client ◌>>=◌
authenticate_client-IsAuthentic c client presented w h = ground arith

-- The clock and every file but that of the clients are those of `s` and `t`.
pub record Rest (s : Store) (t : Time) (s' : Store) (t' : Time) : Type 0 where
  pub users : s'.users ≡ s.users
  pub sessions : s'.sessions ≡ s.sessions
  pub auth_codes : s'.auth_codes ≡ s.auth_codes
  pub tokens : s'.tokens ≡ s.tokens
  pub revocations : s'.revocations ≡ s.revocations
  pub consents : s'.consents ≡ s.consents
  pub now : t' ≡ t

pub Rest-clients : (s : Store) (t : Time) → Ignores (Rest s t) clients
Rest-clients s t s' t' x r = record {
  users = r.users;
  sessions = r.sessions;
  auth_codes = r.auth_codes;
  tokens = r.tokens;
  revocations = r.revocations;
  consents = r.consents;
  now = r.now;
}

-- A client that was identified.
pub record Identified (s : TokenService) (id secret grant : String) (client : Client) (w w' : World)
    : Type 0 where
  pub found : find (λ c. c.id == id) w.clients ≡ some client
  pub authentic : IsAuthentic s.crypto client secret
  pub allowed : allows_grant client grant ≡ true
  pub rest : Rest w.store w.now w'.store w'.now

pub Rest-refl : (w : World) → Rest w.store w.now w.store w.now
Rest-refl w = record {
  users = refl;
  sessions = refl;
  auth_codes = refl;
  tokens = refl;
  revocations = refl;
  consents = refl;
  now = refl;
}

-- Identification writes at most the file of the clients.
identify_client-Rest :
    (s : TokenService) (id secret grant : String) (w : World)
    → let w' = (identify_client s id secret grant w).1 in Rest w.store w.now w'.store w'.now
identify_client-Rest s id secret grant w =
    (identify_client-Keeps (Rest-clients w.store w.now) s id secret grant).at w (Rest-refl w)

pub identify_client-ok :
    (s : TokenService) (id secret grant : String) (w : World) {client : Client} {w' : World}
    → identify_client s id secret grant w ≡ (ok client, w')
    → Identified s id secret grant client w w'
unfolding identify_client
identify_client-ok s id secret grant w {client} {w'} h =
    let (c, w₁, f, h₁) = bind-ok _ _ w h in
    let (found, same) = client-fetched id w (rethrow-ok _ _ w f) in
    let (b, w₂, a, h₂) = bind-ok _ _ w₁ h₁ in
    let (_, w₃, t, h₃) = bind-ok _ _ w₂ h₂ in
    let (authentic, _) = check-ok b _ w₂ t in
    let (_, w₄, g, h₄) = bind-ok _ _ w₃ h₃ in
    let (allowed, _) = check-ok _ _ w₃ g in
    let (same_client, _) = pure-ok c w₄ h₄ in
    record {
      found = rw same_client found;
      authentic =
          rw same_client (authenticate_client-IsAuthentic s.crypto c secret w₁ (rw authentic at a));
      allowed = rw same_client allowed;
      rest =
          subst (λ (v : World). Rest w.store w.now v.store v.now) (ap (λ r. r.1) h)
            (identify_client-Rest s id secret grant w);
    }
