-- ===== src/Oidc/History/Once.antt =====
-- When a history gets an answer at most once: if that answer spends something which stays spent, and
-- which gives no such answer once it is spent.
use idpico.Prelude.{ℕ, ◌+◌, ◌≤◌, ◌≡◌, refl, List, [], ◌∷◌, Option, arith}
use idpico.Domain.{Time}
use idpico.World.{Store, World}
use idpico.Exec.{Result}
use idpico.Exec.Keeps.{Keeps}
use idpico.Oidc.Types.{TokenResponse}
use idpico.Oidc.TokenService.{TokenService}
use idpico.Oidc.History.{Request, Event, arrive, serve, total}

-- What one answer counts for: nothing, or one with the thing spent behind it.
pub data Gives (Spent : Store → Time → Type 0) (n : ℕ) (w' : World) : Type 0 where
  nothing : n ≡ 0 → Gives Spent n w'
  one : n ≡ 1 → Spent w'.store w'.now → Gives Spent n w'

-- What makes an answer come at most once.
pub record OnceOnly (s : TokenService) (counts : Request → Result (Option TokenResponse) → ℕ)
    (Spent : Store → Time → Type 0) : Type 0 where
  pub gives : (r : Request) (w : World) → let q = serve s r w in Gives Spent (counts r q.0) q.1
  pub gives_none : (r : Request) (w : World) → Spent w.store w.now → counts r (serve s r w).0 ≡ 0
  pub keeps : (r : Request) → Keeps Spent (serve s r)
  pub lasts : (e : Event) (w : World) → Spent w.store w.now → Spent w.store (arrive e w).now

module _ {s : TokenService} {counts : Request → Result (Option TokenResponse) → ℕ}
    {Spent : Store → Time → Type 0} (once : OnceOnly s counts Spent) where
  total-Spent : (es : List Event) (w : World) → Spent w.store w.now → total s counts es w ≡ 0
  unfolding total
  total-Spent [] w h = refl
  total-Spent (e ∷ es) w h =
      let h' = once.lasts e w h in
      omega (
        arith,
        once.gives_none e.request (arrive e w) h',
        total-Spent es (serve s e.request (arrive e w)).1
            ((once.keeps e.request).at (arrive e w) h'),
      )

  at_most_one :
      (n m : ℕ) (w' : World)
      → Gives Spent n w'
      → m ≤ 1
      → (Spent w'.store w'.now → m ≡ 0)
      → n + m ≤ 1
  at_most_one n m w' (nothing e) le none_left = omega arith
  at_most_one n m w' (one e h) le none_left = omega (arith, none_left h)

  pub total-le-one : (es : List Event) (w : World) → total s counts es w ≤ 1
  unfolding total
  total-le-one [] w = omega arith
  total-le-one (e ∷ es) w =
      let w' = (serve s e.request (arrive e w)).1 in
      at_most_one _ (total s counts es w') w' (once.gives e.request (arrive e w))
        (total-le-one es w') (total-Spent es w')
