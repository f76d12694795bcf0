-- ===== src/Oidc/Logout/Redirected.antt =====
-- Where a logout may send the user agent.
use idpico.Prelude.{
  subst, ◌&&◌, not, List, String, true, false, ◌≡◌, refl, sym, ap, ◌∙◌, ◌≢◌, ◌⊎◌, inl, inr, [], ◌∷◌,
  some, not-true, ◌==◌, find, mem_text, eq_iff, Bool-cases, arith,
}
use idpico.Prelude.Table.{Table, get_at, put_at, get_at-put_at}
use idpico.Domain.{Client}
use idpico.World.{Store, World}
use idpico.Exec.{ok}
use idpico.Exec.Inversion.{
  Same, Same-refl, bind-ok, check-ok, pure-ok, require-ok, rethrow-ok, unless-ok,
}
use idpico.Store.Fetch.{client-fetched}
use idpico.Oidc.Types.{Claims}
use idpico.Oidc.TokenService.{TokenService}
use idpico.Oidc.TokenService.Introspected.Reports.{Same-after}
use idpico.Oidc.Logout.{
  Table, put_at, not, List, Url, UrlPackage, registered_redirect, single, hinted_client,
  named_client, with_state, post_logout_redirect,
}

-- The token is one that the generator accepts as a hint, and `id` is its only audience.
pub record Hinted (s : TokenService) (token id : String) (w : World) : Type 0 where
  pub claims : Claims
  pub valid : (s.generator.parse_id_token_hint token w).0 ≡ ok claims
  pub audience : claims.audience ≡ id ∷ []

-- The request names the client: by the hint, if there is one, and then `client_id` agrees or is
-- missing; else by `client_id`.
pub record Named (s : TokenService) (hint client_id id : String) (w : World) : Type 0 where
  pub by : (hint ≡ "" × client_id ≡ id) ⊎ Hinted s hint id w
  pub agrees : (client_id ≡ "") ⊎ (client_id ≡ id)

eq_sym_lem : (a b : String) → (a == b) ≡ false → (b == a) ≡ false
eq_sym_lem a b h = elim (Bool-cases (b == a)) [
  | inr f ↦ f
  | inl e ↦
      let same : (a == b) ≡ true = (eq_iff a b).1 (sym ((eq_iff b a).0 e)) in absurd (ground arith)
]

single_lem : (names : List String) {a : String} → single names ≡ some a → names ≡ a ∷ []
single_lem [] h = ground arith
single_lem (b ∷ []) h = ground arith
single_lem (b ∷ c ∷ rest) h = ground arith

agrees_lem :
    (client_id a : String)
    → (not (client_id == "") && not (client_id == a)) ≡ false
    → (client_id ≡ "") ⊎ (client_id ≡ a)
agrees_lem client_id a h = elim (Bool-cases (client_id == "")) [
  | inl e ↦ inl ((eq_iff client_id "").0 e)
  | inr f ↦ elim (Bool-cases (client_id == a)) [
    | inl e ↦ inr ((eq_iff client_id a).0 e)
    | inr g ↦ absurd (ground arith)
  ]
]

hinted_client-ok :
    (s : TokenService) (hint client_id : String) (w : World) {id : String} {w' : World}
    → hinted_client s hint client_id w ≡ (ok id, w')
    → Named s hint client_id id w × Same w w'
unfolding hinted_client
hinted_client-ok s hint client_id w h =
    let (claims, w₁, q, h₁) = bind-ok _ _ w h in
    let valid = rethrow-ok _ _ w q in
    let same =
      Same-after (s.generator.parse_id_token_hint hint) (s.generator.hint_same hint w) valid in
    let (a, w₂, r, h₂) = bind-ok _ _ w₁ h₁ in
    let (one, e) = require-ok (single claims.audience) _ w₁ r in
    let (fit, h₃) = unless-ok _ _ _ w₂ h₂ in
    let (named, e') = pure-ok a w₂ h₃ in
    let hinted : Hinted s hint a w = record {
      claims = claims;
      valid = rw valid refl;
      audience = single_lem claims.audience one;
    } in
    let result : Named s hint client_id a w = record {
      by = inr hinted;
      agrees = agrees_lem client_id a fit;
    } in
    (rw named result, rw (e', e) same)

named_client-ok :
    (s : TokenService) (hint client_id : String) (w : World) {id : String} {w' : World}
    → named_client s hint client_id w ≡ (ok id, w')
    → Named s hint client_id id w × Same w w'
unfolding named_client
named_client-ok s hint client_id w h = elim (Bool-cases (hint == "")) [
  | inr given ↦ hinted_client-ok s hint client_id w (rw given at h)
  | inl missing ↦
      let (e, e') = pure-ok client_id w (rw missing at h) in
      let named : Named s hint client_id client_id w = record {
        by = inl ((eq_iff hint "").0 missing, refl);
        agrees = inr refl;
      } in
      (rw e named, rw e' (Same-refl w))
]

-- `target` is the URL itself, or, where there is a state, the URL with its query printed anew: the
-- query has the state as its only value of `state`, and every other value as it was.
pub data Carries (urls : UrlPackage) (state : String) (url : Url) (target : String) : Type 0 where
  unchanged : state ≡ "" → target ≡ urls.print url → Carries urls state url target
  extended :
      (query : Table (List String))
      → (state == "") ≡ false
      → target ≡ urls.print (record url { raw_query = urls.encode query })
      → get_at query "state" ≡ some (state ∷ [])
      → ((name : String)
          → (name == "state") ≡ false
          → get_at query name ≡ get_at (urls.query url.raw_query) name)
      → Carries urls state url target

with_state-Carries :
    (urls : UrlPackage) (state : String) (url : Url)
    → Carries urls state url (with_state urls state url)
unfolding with_state
with_state-Carries urls state url = elim (Bool-cases (state == "")) [
  | inl e ↦ unchanged ((eq_iff state "").0 e) (rw e refl)
  | inr f ↦
      let old = urls.query url.raw_query in
      extended (put_at old "state" (state ∷ [])) f (rw f refl)
        (get_at-put_at old "state" "state" (state ∷ []))
        (λ name other.
          get_at-put_at old "state" name (state ∷ []) ∙ rw (eq_sym_lem name "state" other) refl)
]

-- A logout that sends the user agent on.
pub record Redirected (urls : UrlPackage) (s : TokenService) (hint client_id uri state : String)
    (w : World) (target : String) : Type 0 where
  pub client : Client
  pub id : String
  pub named : Named s hint client_id id w
  pub given : id ≢ ""
  pub stored : find (λ c. c.id == id) w.clients ≡ some client
  pub registered : mem_text uri client.redirect_uris ≡ true
  pub url : Url
  pub parsed : urls.parse uri ≡ some url
  pub sent : Carries urls state url target

-- The user agent is sent only to a URI that is registered, letter for letter, for the stored client
-- which the request names by an accepted hint with that single audience or by its `client_id`, both
-- of which agree if both are there. Where there is no state the target is that URI, parsed and
-- printed; where there is one, only the query differs, which has the state as its only value of
-- `state` and for every other name what it had.
pub post_logout_redirect-ok :
    (urls : UrlPackage) (s : TokenService) (hint client_id uri state : String) (w : World)
    {target : String} {w' : World}
    → post_logout_redirect urls s hint client_id uri state w ≡ (ok target, w')
    → Redirected urls s hint client_id uri state w target
unfolding post_logout_redirect registered_redirect
post_logout_redirect-ok urls s hint client_id uri state w h =
    let (id, w₁, n, h₁) = bind-ok _ _ w h in
    let (named, same) = named_client-ok s hint client_id w n in
    let (_, w₂, g, h₂) = bind-ok _ _ w₁ h₁ in
    let (given, e₂) = check-ok _ _ w₁ g in
    let (client, w₃, f, h₃) = bind-ok _ _ w₂ h₂ in
    let (found, _) = client-fetched id w₂ (rethrow-ok _ _ w₂ f) in
    let (_, w₄, r, h₄) = bind-ok _ _ w₃ h₃ in
    let (u, w₅, p, h₅) = bind-ok _ _ w₄ h₄ in
    let away = not-true _ given in
    let here =
      ap (λ (x : Store). find (λ (c : Client). c.id == id) x.clients)
        (sym same.store ∙ sym (ap (λ (v : World). v.store) e₂))
      ∙ found in
    record {
      client = client;
      id = id;
      named = named;
      given = λ empty. let on = (eq_iff id "").1 empty in ground arith;
      stored = here;
      registered = (check-ok _ _ w₃ r).0;
      url = u;
      parsed = (require-ok _ _ w₄ p).0;
      sent =
          subst (Carries urls state u) (sym (pure-ok _ w₅ h₅).0) (with_state-Carries urls state u);
    }
