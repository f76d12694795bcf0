-- ===== src/Oidc/Authorize/Validated.antt =====
-- What an authorization request has to be for a code to be issued for it.
use idpico.Prelude.{
  ◌&&◌, ◌||◌, inl, inr, Bool-cases, String, ◌≡◌, ap, Bool, true, false, not, List, [], ◌∷◌, Option,
  none, some, ◌==◌, eq_iff, not-true, find, all, mem_text, refl, arith,
}
use idpico.Prelude.Int.{ℤ, pos, negsuc}
use idpico.Domain.{Client, allows_grant}
use idpico.World.{World}
use idpico.Exec.{Done, ok}
use idpico.Exec.Inversion.{bind-ok, check-ok, pure-ok, rethrow-ok, raise-ok}
use idpico.Store.Fetch.{client-fetched}
use idpico.Oidc.Authorize.Number.{atoi}
use idpico.Oidc.Authorize.{
  ℕ, AuthorizeRequest, scopes, age_of, read_max_age, all_scopes_allowed, more_than_one, has_prompt,
  validate_request, validate_client,
}

-- What is read of `max_age`: nothing where it is absent, and else a number that is not negative.
pub data IsMaxAge (req : AuthorizeRequest) : ℤ → Type 0 where
  absent : req.raw_max_age ≡ "" → IsMaxAge req req.max_age
  given : (n : ℕ) → atoi req.raw_max_age ≡ some (pos n) → IsMaxAge req (pos n)

-- A request that is in order for a client.
pub record Valid (client : Client) (req req' : AuthorizeRequest) : Type 0 where
  pub response_type : req.response_type ≡ "code"
  pub allowed : allows_grant client "authorization_code" ≡ true
  pub openid : mem_text "openid" (scopes req) ≡ true
  pub registered_scopes : all (λ sc. mem_text sc client.scopes) (scopes req) ≡ true
  pub challenged : (client.public && req.code_challenge == "") ≡ false
  pub hashed : (req.code_challenge == "" || req.code_challenge_method == "S256") ≡ true
  pub alone : (has_prompt req "none" && more_than_one req.prompt) ≡ false
  pub no_request : req.has_request ≡ false
  pub no_request_uri : req.has_request_uri ≡ false
  pub no_registration : req.has_registration ≡ false
  pub max_age : IsMaxAge req req'.max_age
  pub rest : req' ≡ record req { max_age = req'.max_age }

none_refused :
    (ok_scope : String → Bool) (xs : List String)
    → find (λ sc. not (ok_scope sc)) xs ≡ none
    → all ok_scope xs ≡ true
none_refused ok_scope [] h = refl
none_refused ok_scope (x ∷ xs) h = ground (arith, none_refused ok_scope xs)

all_scopes_allowed-ok :
    (o : Option String) (w : World) {u : Done} {w' : World}
    → all_scopes_allowed o w ≡ (ok u, w')
    → o ≡ none
all_scopes_allowed-ok none w h = refl
all_scopes_allowed-ok (some sc) w h = absurd (raise-ok _ w h)

age_of-ok :
    (o : Option ℤ) (w : World) {n : ℤ} {w' : World}
    → age_of o w ≡ (ok n, w')
    → (m : ℕ) × (o ≡ some (pos m)) × (n ≡ pos m)
age_of-ok (some (pos m)) w h = let (e, _) = pure-ok _ w h in (m, refl, e)
age_of-ok (some (negsuc m)) w h = absurd (raise-ok _ w h)
age_of-ok none w h = absurd (raise-ok _ w h)

read_max_age-ok :
    (req : AuthorizeRequest) (w : World) {n : ℤ} {w' : World}
    → read_max_age req w ≡ (ok n, w')
    → IsMaxAge req n
unfolding read_max_age
read_max_age-ok req w {n} {w'} h = elim (Bool-cases (req.raw_max_age == "")) [
  | inl e ↦
      let (same, _) = pure-ok req.max_age w (rw e at h) in
      rw same (IsMaxAge.absent ((eq_iff _ _).0 e))
  | inr e ↦
      let (m, read, same) = age_of-ok (atoi req.raw_max_age) w (rw e at h) in
      rw same (IsMaxAge.given m read)
]

validate_request-ok :
    (client : Client) (req : AuthorizeRequest) (w : World) {req' : AuthorizeRequest} {w' : World}
    → validate_request client req w ≡ (ok req', w')
    → Valid client req req'
unfolding validate_request
validate_request-ok client req w h =
    let (_, w₁, c₁, h₁) = bind-ok _ _ w h in
    let (_, w₂, c₂, h₂) = bind-ok _ _ w₁ h₁ in
    let (_, w₃, c₃, h₃) = bind-ok _ _ w₂ h₂ in
    let (n, w₄, c₄, h₄) = bind-ok _ _ w₃ h₃ in
    let (_, w₅, c₅, h₅) = bind-ok _ _ w₄ h₄ in
    let (_, w₆, c₆, h₆) = bind-ok _ _ w₅ h₅ in
    let (_, w₇, c₇, h₇) = bind-ok _ _ w₆ h₆ in
    let (_, w₈, c₈, h₈) = bind-ok _ _ w₇ h₇ in
    let (_, w₉, c₉, h₉) = bind-ok _ _ w₈ h₈ in
    let (_, v, c, g) = bind-ok _ _ w₉ h₉ in
    let (_, v', c', g') = bind-ok _ _ v g in
    let (e, _) = pure-ok _ v' g' in
    record {
      response_type = (eq_iff _ _).0 (check-ok _ _ w₅ c₆).0;
      allowed = (check-ok _ _ w₆ c₇).0;
      openid = (check-ok _ _ w₇ c₈).0;
      registered_scopes = none_refused _ (scopes req) (all_scopes_allowed-ok _ v c');
      challenged = not-true _ (check-ok _ _ w₈ c₉).0;
      hashed = (check-ok _ _ w₉ c).0;
      alone = not-true _ (check-ok _ _ w₄ c₅).0;
      no_request = not-true _ (check-ok _ _ w c₁).0;
      no_request_uri = not-true _ (check-ok _ _ w₁ c₂).0;
      no_registration = not-true _ (check-ok _ _ w₂ c₃).0;
      max_age = rw e (read_max_age-ok req w₃ c₄);
      rest = rw e refl;
    }

-- A request is accepted only for a stored client, with a redirect URI that this client
-- registered, and only if it is in order for the client: it asks for a code, the client may use
-- the code grant, the scopes contain openid and are all registered, a public client sends a PKCE
-- challenge, every challenge is S256, prompt=none stands alone, there is no request object,
-- request_uri or registration, and max_age is absent, or a number that is not negative and becomes
-- that of the request. Nothing else of the request changes, and an absent max_age changes nothing.
pub validate_client-ok :
    (req : AuthorizeRequest) (w : World) {client : Client} {req' : AuthorizeRequest} {w' : World}
    → validate_client req w ≡ (ok (client, req'), w')
    → (find (λ c. c.id == req.client_id) w.clients ≡ some client)
      × (mem_text req.redirect_uri client.redirect_uris ≡ true)
      × Valid client req req'
unfolding validate_client
validate_client-ok req w h =
    let (c, w₁, f, h₁) = bind-ok _ _ w h in
    let (found, _) = client-fetched req.client_id w (rethrow-ok _ _ w f) in
    let (_, w₂, q, h₂) = bind-ok _ _ w₁ h₁ in
    let (registered, _) = check-ok _ _ w₁ q in
    let (checked, w₃, v, h₃) = bind-ok _ _ w₂ h₂ in
    let valid = validate_request-ok c req w₂ v in
    let (e, _) = pure-ok _ w₃ h₃ in
    let same = ap (λ (r : Client × AuthorizeRequest). r.0) e in
    (
      rw same found,
      rw same registered,
      rw (same, ap (λ (r : Client × AuthorizeRequest). r.1) e) valid,
    )
