-- ===== src/Exec/Keeps.antt =====
-- Invariants of the files and the clock: one rule for each way to build an operation.
use idpico.Prelude.{
  List, [], ◌∷◌, String, ◌≡◌, refl, Bool, true, false, Option, none, some, arith, if◌then◌else◌,
}
use idpico.Errors.{Error}
use idpico.Domain.{Time, Cookie}
use idpico.World.{Store, World, Memory}
use idpico.Exec.{
  List, choose, Result, ok, err, Exec, pure, raise, check, require, rethrow, branch, ignore, resume,
  gets, clock, new_uuid, random_text, modify, set_cookie, ◌>>=◌,
}
use idpico.Store.File.{File, load, save}

-- Whether `m` succeeds or fails, it leaves files that satisfy `P` if it finds such files.
pub record Keeps {A : Type 0} (P : Store → Time → Type 0) (m : Exec A) : Type 0 where
  pub at : (w : World) → P w.store w.now → P (m w).1.store (m w).1.now

module _ {P : Store → Time → Type 0} where
  module _ {A : Type 0} where
    pub Keeps-pure : (value : A) → Keeps P (pure value)
    unfolding pure
    Keeps-pure value = record { at = λ w kept. kept }

    pub Keeps-raise : (e : Error) → Keeps P (raise {A = A} e)
    unfolding raise
    Keeps-raise e = record { at = λ w h. h }

    pub Keeps-gets : (f : World → A) → Keeps P (gets f)
    unfolding gets
    Keeps-gets f = record { at = λ w h. h }

    pub Keeps-require : (o : Option A) (e : Error) → Keeps P (require o e)
    unfolding require
    Keeps-require none e = record { at = λ w h. h }
    Keeps-require (some a) e = record { at = λ w h. h }

    pub Keeps-if :
        (test : Bool) (m n : Exec A)
        → (test ≡ true → Keeps P m)
        → (test ≡ false → Keeps P n)
        → Keeps P (if test then m else n)
    Keeps-if true m n on off = on refl
    Keeps-if false m n on off = off refl

    pub Keeps-rethrow : (f : Error → Error) (m : Exec A) → Keeps P m → Keeps P (rethrow f m)
    unfolding rethrow
    Keeps-rethrow f m k = record { at = λ w h. ground (arith, k.at w h) }

    pub Keeps-ignore : (m : Exec A) → Keeps P m → Keeps P (ignore m)
    unfolding ignore
    Keeps-ignore m k = record { at = λ w h. k.at w h }

    pub Keeps-load : (f : File A) (message : String) → Keeps P (load f message)
    unfolding load ◌>>=◌
    Keeps-load f message = record { at = λ w h. ground arith }

    -- A write keeps what holds of the files whatever that one of them holds.
    pub Keeps-save :
        (f : File A) (x : A)
        → ((s : Store) (t : Time) → P s t → P (f.set s x) t)
        → Keeps P (save f x)
    unfolding save ◌>>=◌
    Keeps-save f x k = record { at = λ w h. ground (arith, k w.store w.now h) }

  pub Keeps-check : (b : Bool) (e : Error) → Keeps P (check b e)
  unfolding check
  Keeps-check true e = record { at = λ w h. h }
  Keeps-check false e = record { at = λ w h. h }

  pub Keeps-uuid : Keeps P new_uuid
  unfolding new_uuid
  Keeps-uuid = record { at = λ w h. h }

  pub Keeps-random : Keeps P random_text
  unfolding random_text
  Keeps-random = record { at = λ w h. h }

  pub Keeps-modify : {A : Type 0} (f : Memory → Time → A × Memory) → Keeps P (modify f)
  unfolding modify
  Keeps-modify f = record { at = λ w h. h }

  pub Keeps-set_cookie : (c : Cookie) → Keeps P (set_cookie c)
  unfolding set_cookie
  Keeps-set_cookie c = record { at = λ w h. h }

  pub Keeps-clock : Keeps P clock
  unfolding clock
  Keeps-clock = record { at = λ w h. h }

  module _ {A B : Type 0} where
    pub Keeps-bind :
        (first : Exec A) (rest : A → Exec B)
        → Keeps P first
        → ((x : A) → Keeps P (rest x))
        → Keeps P (first >>= rest)
    unfolding ◌>>=◌
    Keeps-bind first rest begins ends = record {
      at = λ w kept. then_at (first w) (begins.at w kept);
    }
      where
        then_at :
            (q : Result A × World)
            → P q.1.store q.1.now
            → P (resume rest q).1.store (resume rest q).1.now
        then_at (ok x, v) kept = (ends x).at v kept
        then_at (err e, v) kept = kept

    pub Keeps-branch :
        (m : Exec A) (f : A → Exec B) (g : Error → Exec B)
        → Keeps P m
        → ((a : A) → Keeps P (f a))
        → ((e : Error) → Keeps P (g e))
        → Keeps P (branch m f g)
    unfolding branch
    Keeps-branch m f g km kf kg = record { at = λ w h. after (m w) (km.at w h) }
      where
        after :
            (r : Result A × World)
            → P r.1.store r.1.now
            → P (choose f g r).1.store (choose f g r).1.now
        after (ok a, w') h = (kf a).at w' h
        after (err x, w') h = (kg x).at w' h

-- The same at one world, where an operation writes what it read.
module _ (P : Store → Time → Type 0) where
  module _ {A B : Type 0} where
    resume-at :
        (f : A → Exec B) (r : Result A × World)
        → P r.1.store r.1.now
        → ((a : A) → Keeps P (f a))
        → P (resume f r).1.store (resume f r).1.now
    unfolding resume
    resume-at f (ok a, w) h kf = (kf a).at w h
    resume-at f (err e, w) h kf = h

    pub bind-at :
        (m : Exec A) (f : A → Exec B) (w : World)
        → P (m w).1.store (m w).1.now
        → ((a : A) → Keeps P (f a))
        → P ((m >>= f) w).1.store ((m >>= f) w).1.now
    unfolding ◌>>=◌
    bind-at m f w h kf = resume-at f (m w) h kf

    pub require-at :
        (o : Option A) (e : Error) (f : A → Exec B) (w : World)
        → P w.store w.now
        → ((a : A) → P (f a w).1.store (f a w).1.now)
        → P ((require o e >>= f) w).1.store ((require o e >>= f) w).1.now
    unfolding ◌>>=◌
    require-at none e f w h k = h
    require-at (some a) e f w h k = k a

    pub load-at :
        (f : File A) (message : String) (g : A → Exec B)
        → ((w : World) → P w.store w.now → let w' = (g (f.get w.store) w).1 in P w'.store w'.now)
        → Keeps P (load f message >>= g)
    unfolding load ◌>>=◌
    load-at f message g k = record { at = λ w h. taken w w.faults h }
      where
        taken :
            (w : World) (faults : List Bool)
            → P w.store w.now
            → let v = record w { faults = faults } in
              P ((load f message >>= g) v).1.store ((load f message >>= g) v).1.now
        taken w [] h = k (record w { faults = [] }) h
        taken w (true ∷ rest) h = h
        taken w (false ∷ rest) h = k (record w { faults = rest }) h

  pub save-at :
      {A : Type 0} (f : File A) (x : A) (w : World)
      → P w.store w.now
      → P (f.set w.store x) w.now
      → P (save f x w).1.store (save f x w).1.now
  unfolding save ◌>>=◌
  save-at f x w h k = ground arith

pub ruleset keeps_rules = (
  Keeps-pure, Keeps-raise, Keeps-gets, Keeps-require, Keeps-if, Keeps-rethrow, Keeps-ignore,
  Keeps-load, Keeps-check, Keeps-uuid, Keeps-random, Keeps-modify, Keeps-set_cookie, Keeps-clock,
  Keeps-bind, Keeps-branch,
)
