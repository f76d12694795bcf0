-- ===== src/Oidc/ConsentService/Granted.antt =====
-- A consent that was recorded covers what was allowed.
use idpico.Prelude.{
  if◌then◌else◌, none, Option, Bool-cases, any-find, not_any-find, inl, inr, String, ◌≡◌, ap, ◌∙◌,
  refl, Bool, true, ◌||◌, List, [], ◌∷◌, none, some, eq_refl, find, all, any, mem_text, arith,
  find-change_first, find-append-none,
}
use idpico.Errors.{Error, wrapped, is_code, code_not_found}
use idpico.Domain.{Consent, covers}
use idpico.World.{Store, World}
use idpico.Exec.{Exec, Done, raise, ok}
use idpico.Exec.Inversion.{bind-ok, raise-ok, branch-cases}
use idpico.Store.File.{consents, save-ok}
use idpico.Store.Fetch.{consent-fetched, consent-missing}
use idpico.Store.Consents
use idpico.Store.Consents.{between, upserted}
use idpico.Oidc.Scope.Union.{mem-union_scopes}
use idpico.Oidc.ConsentService.{grant}

all-imp :
    (p q : String → Bool) (xs : List String)
    → ((t : String) → p t ≡ true → q t ≡ true)
    → all p xs ≡ true
    → all q xs ≡ true
all-imp p q [] e h = refl
all-imp p q (x ∷ xs) e h = ground (arith, e x, all-imp p q xs e)

mem_self : (xs : List String) → all (λ t. mem_text t xs) xs ≡ true
mem_self [] = refl
mem_self (x ∷ xs) = ground (
  arith,
  eq_refl x,
  all-imp (λ t. mem_text t xs) (λ t. mem_text t (x ∷ xs)) xs (λ t h. ground arith) (mem_self xs),
)

-- What is stored between a user and a client after a consent was written.
upserted-find :
    (consent : Consent) (found : List Consent)
    → (c : Consent) × (find (between consent.user_id consent.client_id) (upserted consent found)
        ≡ some c)
      × (c.scopes ≡ consent.scopes)
unfolding upserted
upserted-find consent found =
    let same = between consent.user_id consent.client_id in
    let self : same consent ≡ true =
      ground (arith, eq_refl consent.user_id, eq_refl consent.client_id) in
    elim (Bool-cases (any same found)) [
      | inl e ↦
          let (a, f) = any-find same found e in
          (
            record consent { id = a.id },
            rw e (find-change_first same (λ c. record consent { id = c.id }) found f self),
            refl,
          )
      | inr e ↦ (
        consent,
        rw e
            (find-append-none same found (consent ∷ []) (not_any-find same found e) ∙ rw self refl),
        refl,
      )
    ]

upsert-ok :
    (consent : Consent) (w : World) {w' : World}
    → Consents.upsert consent w ≡ (ok tt, w')
    → (c : Consent) × (find (between consent.user_id consent.client_id) w'.consents ≡ some c)
      × (c.scopes ≡ consent.scopes)
unfolding Consents.upsert
upsert-ok consent w h =
    let (xs, w₁, l, h₁) = bind-ok _ _ w h in
    let (id, w₂, i, h₂) = bind-ok _ _ w₁ h₁ in
    let (now, w₃, q, h₃) = bind-ok _ _ w₂ h₂ in
    let (c, f, e) = upserted-find (record consent { id = id; granted_at = now }) xs in
    let same = between consent.user_id consent.client_id in
    (c, ap (λ (s : Store). find same s.consents) (save-ok consents _ w₃ h₃).store ∙ f, e)

same_lem : {A : Type 0} {o : Option A} {a b : A} → o ≡ some a → o ≡ some b → a ≡ b
same_lem p q = ground arith

or_true : (b : Bool) → (b || true) ≡ true
or_true b = ground arith

none_lem : {A : Type 0} {o : Option A} {a : A} → o ≡ some a → o ≡ none → ⊥
none_lem p q = ground arith

else_err-ok :
    (e : Error) (m : Exec Done) (w : World) {w' : World}
    → (if is_code e code_not_found then m else raise (wrapped "failed to load consent" e)) w
      ≡ (ok tt, w')
    → (is_code e code_not_found ≡ true) × (m w ≡ (ok tt, w'))
else_err-ok e m w h = elim (Bool-cases (is_code e code_not_found)) [
  | inl t ↦ (t, rw t at h)
  | inr f ↦ absurd (raise-ok _ w (rw f at h))
]

-- What is stored after a consent was recorded holds the scopes that were allowed and those of the
-- consent that was stored before.
recorded :
    (user_id client_id : String) (scopes : List String) (w : World) {w' : World}
    → grant user_id client_id scopes w ≡ (ok tt, w')
    → (c : Consent) × (find (between user_id client_id) w'.consents ≡ some c)
      × ((t : String) → mem_text t scopes ≡ true → mem_text t c.scopes ≡ true)
      × ((b : Consent) (t : String)
          → find (between user_id client_id) w.consents ≡ some b
          → mem_text t b.scopes ≡ true
          → mem_text t c.scopes ≡ true)
unfolding grant
recorded user_id client_id scopes w h =
    elim (branch-cases (Consents.get user_id client_id) _ _ w h) [
      | inl (existing, v, q, g) ↦
          let (found, _) = consent-fetched user_id client_id w q in
          let (c, f, e) = upsert-ok _ v g in
          let both = λ (t : String). mem-union_scopes t existing.scopes scopes in
          (
            c,
            f,
            λ t m. rw e (rw (both t) (rw m (or_true _))),
            λ b t was m. rw e (
                rw (both t)
                  (rw (← ap (λ (c : Consent). c.scopes) (same_lem was found)) (rw m refl))),
          )
      | inr (e, v, q, g) ↦
          let (missing, k) = else_err-ok e _ v g in
          let (c, f, same) = upsert-ok _ v k in
          (
            c,
            f,
            λ t m. rw same m,
            λ b t was m. absurd (none_lem was (consent-missing user_id client_id w q missing)),
          )
    ]

-- After a consent was recorded, the stored consent of the user for the client covers all the
-- scopes that were allowed.
pub grant-covers :
    (user_id client_id : String) (scopes : List String) (w : World) {w' : World}
    → grant user_id client_id scopes w ≡ (ok tt, w')
    → (c : Consent) × (find (between user_id client_id) w'.consents ≡ some c)
      × (covers c scopes ≡ true)
unfolding covers
grant-covers user_id client_id scopes w h =
    let (c, f, new, old) = recorded user_id client_id scopes w h in
    (c, f, all-imp (λ t. mem_text t scopes) (λ t. mem_text t c.scopes) scopes new (mem_self scopes))

-- What a consent covers stays covered when another one is recorded for the same user and client.
pub grant-keeps_covered :
    (user_id client_id : String) (scopes old : List String) (before : Consent) (w : World)
    {w' : World}
    → find (between user_id client_id) w.consents ≡ some before
    → covers before old ≡ true
    → grant user_id client_id scopes w ≡ (ok tt, w')
    → (c : Consent) × (find (between user_id client_id) w'.consents ≡ some c)
      × (covers c old ≡ true)
unfolding covers
grant-keeps_covered user_id client_id scopes old before w was covered h =
    let (c, f, new, kept) = recorded user_id client_id scopes w h in
    (
      c,
      f,
      all-imp (λ t. mem_text t before.scopes) (λ t. mem_text t c.scopes) old
          (λ t m. kept before t was m) covered,
    )
