-- ===== src/Exec.antt =====
-- Operations that read and write the files and may return an error. What was written before an
-- error stays written, so the state comes back beside it.
pub mod Inversion
pub mod Keeps
pub mod Pending
use idpico.Prelude.{◌+◌, ◌++◌, String, Bool, true, false, List, [], ◌∷◌, Option, none, some}
use idpico.Errors.{Error, foreign}
use idpico.Domain.{Time, Cookie}
use idpico.World.{World, Memory}

pub data Result {ℓ} (A : Type ℓ) : Type ℓ where
  ok : A → Result A
  err : Error → Result A

abbrev pub Exec : Type 0 → Type 0
Exec A = World → Result A × World

-- The result of an operation that returns nothing but its error.
abbrev pub Done : Type 0
Done = Unit {0}

unfoldable pub pure : {A : Type 0} → A → Exec A
pure a w = (ok a, w)

unfoldable pub raise : {A : Type 0} → Error → Exec A
raise e w = (err e, w)

pub gets : {A : Type 0} → (World → A) → Exec A
gets f w = (ok (f w), w)

pub require : {A : Type 0} → Option A → Error → Exec A
require none e w = (err e, w)
require (some a) e w = (ok a, w)

-- `if !test { return err }`
pub check : Bool → Error → Exec Done
check true e w = (ok tt, w)
check false e w = (err e, w)

-- `time.Now()`: the clock stands still during an operation.
pub clock : Exec Time
clock w = (ok w.now, w)

-- `uuid.New().String()`
pub new_uuid : Exec String
new_uuid w = (ok (w.host.uuid w.minted), record w { minted = w.minted + 1 })

-- `base64.RawURLEncoding.EncodeToString` of 32 random bytes.
pub random_text : Exec String
random_text w = (ok (w.host.random w.minted), record w { minted = w.minted + 1 })

-- The state that the sign-in keeps in memory, changed in one step under its mutex.
pub modify : {A : Type 0} → (Memory → Time → A × Memory) → Exec A
modify f w = let (a, m) = f w.memory w.now in (ok a, record w { memory = m })

-- `http.SetCookie`
pub set_cookie : Cookie → Exec Done
set_cookie c w = (ok tt, record w { set_cookies = w.set_cookies ++ c ∷ [] })

take_fault : World → List Bool → Result Done × World
take_fault w [] = (ok tt, w)
take_fault w (true ∷ rest) = (err (foreign "input/output error"), record w { faults = rest })
take_fault w (false ∷ rest) = (ok tt, record w { faults = rest })

-- One read or write of a file, which may fail.
pub attempt : Exec Done
unfolding take_fault
attempt w = take_fault w w.faults

module _ {A : Type 0} where
  recast : (Error → Error) → Result A × World → Result A × World
  recast f (ok a, w) = (ok a, w)
  recast f (err e, w) = (err (f e), w)

  -- `if err != nil { return nil, f(err) }`
  pub rethrow : (Error → Error) → Exec A → Exec A
  unfolding recast
  rethrow f m w = recast f (m w)

  -- `_ = m`: an error is dropped.
  pub ignore : Exec A → Exec Done
  ignore m w = (ok tt, (m w).1)

module _ {A B : Type 0} where
  choose : (A → Exec B) → (Error → Exec B) → Result A × World → Result B × World
  choose f g (ok a, w) = f a w
  choose f g (err e, w) = g e w

  -- `if v, err := m; err == nil { … } else { … }`
  pub branch : Exec A → (A → Exec B) → (Error → Exec B) → Exec B
  unfolding choose
  branch m f g w = choose f g (m w)

  resume : (A → Exec B) → Result A × World → Result B × World
  resume f (ok a, w) = f a w
  resume f (err e, w) = (err e, w)

  infixl 5 ◌>>=◌ ◌>>◌
  -- Opening this opens the other ways to build an operation too.
  unfoldable pub ◌>>=◌ : Exec A → (A → Exec B) → Exec B
  unfolding resume pure raise gets require check clock new_uuid random_text modify set_cookie
      attempt rethrow ignore branch
  ◌>>=◌ m f w = resume f (m w)

  abbrev pub ◌>>◌ : Exec A → Exec B → Exec B
  m >> n = m >>= λ _. n
