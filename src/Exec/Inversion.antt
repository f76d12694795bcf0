-- ===== src/Exec/Inversion.antt =====
-- What a successful operation tells of its parts.
use idpico.Prelude.{
  String, ◌⊎◌, inl, inr, ◌≡◌, refl, ◌∙◌, Bool, true, false, Option, none, some, arith,
  if◌then◌else◌,
}
use idpico.Errors.{Error}
use idpico.Domain.{Time}
use idpico.World.{World}
use idpico.Exec.{
  Result, ok, err, Exec, Done, resume, choose, pure, raise, check, require, rethrow, branch, clock,
  new_uuid, ◌>>=◌,
}

-- Between `w` and `w'` no file has changed, and the clock stands still.
pub record Same (w w' : World) : Type 0 where
  pub store : w'.store ≡ w.store
  pub now : w'.now ≡ w.now
  pub host : w'.host ≡ w.host

pub Same-refl : (w : World) → Same w w
Same-refl w = record { store = refl; now = refl; host = refl }

pub Same-trans : {u v w : World} → Same u v → Same v w → Same u w
Same-trans p q = record { store = q.store ∙ p.store; now = q.now ∙ p.now; host = q.host ∙ p.host }

module _ {A B : Type 0} where
  resume-ok :
      (f : A → Exec B) (r : Result A × World) {b : B} {w' : World}
      → resume f r ≡ (ok b, w')
      → (a : A) × (w₁ : World) × (r ≡ (ok a, w₁)) × (f a w₁ ≡ (ok b, w'))
  unfolding resume
  resume-ok f (ok a, w) h = (a, w, refl, h)
  resume-ok f (err e, w) h = absurd (ground arith)

  pub bind-ok :
      (m : Exec A) (f : A → Exec B) (w : World) {b : B} {w' : World}
      → (m >>= f) w ≡ (ok b, w')
      → (a : A) × (w₁ : World) × (m w ≡ (ok a, w₁)) × (f a w₁ ≡ (ok b, w'))
  unfolding ◌>>=◌
  bind-ok m f w h = resume-ok f (m w) h

pub check-ok :
    (b : Bool) (e : Error) (w : World) {u : Done} {w' : World}
    → check b e w ≡ (ok u, w')
    → (b ≡ true) × (w' ≡ w)
unfolding check
check-ok true e w h = (refl, ground arith)
check-ok false e w h = absurd (ground arith)

pub clock-ok : (w : World) {t : Time} {w' : World} → clock w ≡ (ok t, w') → (t ≡ w.now) × (w' ≡ w)
unfolding clock
clock-ok w h = (ground arith, ground arith)

pub uuid-ok :
    (w : World) {id : String} {w' : World}
    → new_uuid w ≡ (ok id, w')
    → (id ≡ w.host.uuid w.minted) × Same w w'
unfolding new_uuid
uuid-ok w h = ground arith

module _ {A : Type 0} where
  pub pure-ok :
      (a : A) (w : World) {b : A} {w' : World} → pure a w ≡ (ok b, w') → (b ≡ a) × (w' ≡ w)
  unfolding pure
  pure-ok a w h = (ground arith, ground arith)

  pub raise-ok : (e : Error) (w : World) {a : A} {w' : World} → raise e w ≡ (ok a, w') → ⊥
  unfolding raise
  raise-ok e w h = ground arith

  pub require-ok :
      (o : Option A) (e : Error) (w : World) {a : A} {w' : World}
      → require o e w ≡ (ok a, w')
      → (o ≡ some a) × (w' ≡ w)
  unfolding require
  require-ok none e w h = absurd (ground arith)
  require-ok (some a) e w h = (ground arith, ground arith)

  pub rethrow-ok :
      (f : Error → Error) (m : Exec A) (w : World) {a : A} {w' : World}
      → rethrow f m w ≡ (ok a, w')
      → m w ≡ (ok a, w')
  unfolding rethrow
  rethrow-ok f m w h = ground arith

  -- `if b { return err }` in front of the rest.
  pub unless-ok :
      (b : Bool) (e : Error) (m : Exec A) (w : World) {a : A} {w' : World}
      → (if b then raise e else m) w ≡ (ok a, w')
      → (b ≡ false) × (m w ≡ (ok a, w'))
  unless-ok true e m w h = absurd (raise-ok e w h)
  unless-ok false e m w h = (refl, h)

  -- A test whose branch never succeeds has failed.
  pub else-ok :
      (b : Bool) (m n : Exec A) (w : World) {a : A} {w' : World}
      → (m w ≡ (ok a, w') → ⊥)
      → (if b then m else n) w ≡ (ok a, w')
      → (b ≡ false) × (n w ≡ (ok a, w'))
  else-ok true m n w fails h = absurd (fails h)
  else-ok false m n w fails h = (refl, h)

module _ {A B : Type 0} where
  choose-ok :
      (f : A → Exec B) (g : Error → Exec B) (r : Result A × World) {b : B} {w' : World}
      → ((e : Error) (v : World) → g e v ≡ (ok b, w') → ⊥)
      → choose f g r ≡ (ok b, w')
      → (a : A) × (v : World) × (r ≡ (ok a, v)) × (f a v ≡ (ok b, w'))
  unfolding choose
  choose-ok f g (ok a, v) fails h = (a, v, refl, h)
  choose-ok f g (err e, v) fails h = absurd (fails e v h)

  -- A handler that never succeeds was not entered.
  pub branch-ok :
      (m : Exec A) (f : A → Exec B) (g : Error → Exec B) (w : World) {b : B} {w' : World}
      → ((e : Error) (v : World) → g e v ≡ (ok b, w') → ⊥)
      → branch m f g w ≡ (ok b, w')
      → (a : A) × (v : World) × (m w ≡ (ok a, v)) × (f a v ≡ (ok b, w'))
  unfolding branch
  branch-ok m f g w fails h = choose-ok f g (m w) fails h

  choose-cases :
      (f : A → Exec B) (g : Error → Exec B) (r : Result A × World) {b : B} {w' : World}
      → choose f g r ≡ (ok b, w')
      → ((a : A) × (v : World) × (r ≡ (ok a, v)) × (f a v ≡ (ok b, w')))
        ⊎ ((e : Error) × (v : World) × (r ≡ (err e, v)) × (g e v ≡ (ok b, w')))
  unfolding choose
  choose-cases f g (ok a, v) h = inl (a, v, refl, h)
  choose-cases f g (err e, v) h = inr (e, v, refl, h)

  -- Either way through a handler.
  pub branch-cases :
      (m : Exec A) (f : A → Exec B) (g : Error → Exec B) (w : World) {b : B} {w' : World}
      → branch m f g w ≡ (ok b, w')
      → ((a : A) × (v : World) × (m w ≡ (ok a, v)) × (f a v ≡ (ok b, w')))
        ⊎ ((e : Error) × (v : World) × (m w ≡ (err e, v)) × (g e v ≡ (ok b, w')))
  unfolding branch
  branch-cases m f g w h = choose-cases f g (m w) h
