-- ===== src/Prelude/Lists.antt =====
-- Searches and changes of a list by a Boolean test, as the loops of the program make them.
use Prim.Native.Nat.{ℕ, suc}
use mathlib.Core.Path.{◌∙◌, ap, ◌≡◌, refl}
use mathlib.Core.Logic.{◌⊎◌, inl, inr}
use mathlib.Core.Bool.{Bool, true, false}
use mathlib.Core.Option.{Option, none, some}
use mathlib.Core.List.{List, [], ◌∷◌, ◌++◌}
use native.Mathlib.Omega.{arith}
use idpico.Prelude.Tests.{if◌then◌else◌, Bool-cases}

module _ {ℓ} {A : Type ℓ} where
  abbrev pub length : List A → ℕ
  length [] = 0
  length (x ∷ xs) = suc (length xs)

  -- The loop `for _, x := range xs { if p(x) { return x } }`.
  abbrev pub find : (A → Bool) → List A → Option A
  find p [] = none
  find p (x ∷ xs) = if p x then some x else find p xs

  -- The loop that stores a new value over the first element that passes the test.
  abbrev pub change_first : (A → Bool) → (A → A) → List A → List A
  change_first p f [] = []
  change_first p f (x ∷ xs) = if p x then f x ∷ xs else x ∷ change_first p f xs

  -- `append(xs[:i], xs[i+1:]...)` at the first element that passes the test.
  abbrev pub remove_first : (A → Bool) → List A → List A
  remove_first p [] = []
  remove_first p (x ∷ xs) = if p x then xs else x ∷ remove_first p xs

  -- The loop that copies the elements that pass the test.
  abbrev pub keep : (A → Bool) → List A → List A
  keep p [] = []
  keep p (x ∷ xs) = let rest = keep p xs in if p x then x ∷ rest else rest

  abbrev pub any : (A → Bool) → List A → Bool
  any p [] = false
  any p (x ∷ xs) = if p x then true else any p xs

  abbrev pub all : (A → Bool) → List A → Bool
  all p [] = true
  all p (x ∷ xs) = if p x then all p xs else false

module _ {ℓ} {A : Type ℓ} where
  -- What a search finds passes its test.
  pub find-passes : (p : A → Bool) (xs : List A) {a : A} → find p xs ≡ some a → p a ≡ true
  find-passes p [] h = ground arith
  find-passes p (x ∷ xs) {a} h = ground (arith, find-passes p xs {a = a})

  pub find-append-none :
      (p : A → Bool) (xs ys : List A) → find p xs ≡ none → find p (xs ++ ys) ≡ find p ys
  find-append-none p [] ys h = refl
  find-append-none p (x ∷ xs) ys h = ground (arith, find-append-none p xs ys)

  pub find-append-some :
      (p : A → Bool) (xs ys : List A) {a : A} → find p xs ≡ some a → find p (xs ++ ys) ≡ some a
  find-append-some p [] ys h = ground arith
  find-append-some p (x ∷ xs) ys {a} h = ground (arith, find-append-some p xs ys {a = a})

  -- A change that keeps the test is seen by the same search.
  pub find-change_first :
      (p : A → Bool) (f : A → A) (xs : List A) {a : A}
      → find p xs ≡ some a
      → p (f a) ≡ true
      → find p (change_first p f xs) ≡ some (f a)
  find-change_first p f [] h k = ground arith
  find-change_first p f (x ∷ xs) {a} h k = ground (arith, find-change_first p f xs {a = a})

module _ {ℓ} {A : Type ℓ} where
  pub any-append :
      (q : A → Bool) (xs ys : List A) → any q (xs ++ ys) ≡ (if any q xs then true else any q ys)
  any-append q [] ys = refl
  any-append q (x ∷ xs) ys = ground (arith, any-append q xs ys)

  pub any-find : (p : A → Bool) (xs : List A) → any p xs ≡ true → (a : A) × (find p xs ≡ some a)
  any-find p [] h = absurd (ground arith)
  any-find p (x ∷ xs) h = elim (Bool-cases (p x)) [
    | inl e ↦ (x, ground arith)
    | inr e ↦ let (a, f) = any-find p xs (ground arith) in (a, ground arith)
  ]

  pub not_any-find : (p : A → Bool) (xs : List A) → any p xs ≡ false → find p xs ≡ none
  not_any-find p [] h = refl
  not_any-find p (x ∷ xs) h = ground (arith, not_any-find p xs)

  -- A change that fails no test that passed is seen by no search for it.
  pub any-change_first :
      (p q : A → Bool) (f : A → A) (xs : List A)
      → ((x : A) → q x ≡ true → q (f x) ≡ true)
      → any q xs ≡ true
      → any q (change_first p f xs) ≡ true
  any-change_first p q f [] keeps h = h
  any-change_first p q f (x ∷ xs) keeps h = ground (arith, keeps x, any-change_first p q f xs keeps)

  -- A change that makes what it changes pass.
  pub any-change_first_new :
      (p q : A → Bool) (f : A → A) (xs : List A)
      → ((x : A) → p x ≡ true → q (f x) ≡ true)
      → any p xs ≡ true
      → any q (change_first p f xs) ≡ true
  any-change_first_new p q f [] makes h = ground arith
  any-change_first_new p q f (x ∷ xs) makes h =
      ground (arith, makes x, any-change_first_new p q f xs makes)

module _ {ℓ} {A : Type ℓ} (p u : A → Bool) where
  -- There is an element that passes `p`, and the first such passes `u`.
  abbrev pub first_is : List A → Bool
  first_is [] = false
  first_is (x ∷ xs) = if p x then u x else first_is xs

  pub first_is-find : (xs : List A) {a : A} → find p xs ≡ some a → first_is xs ≡ u a
  first_is-find [] h = ground arith
  first_is-find (x ∷ xs) {a} h = ground (arith, first_is-find xs {a = a})

  pub first_is-append : (xs ys : List A) → first_is xs ≡ true → first_is (xs ++ ys) ≡ true
  first_is-append [] ys h = ground arith
  first_is-append (x ∷ xs) ys h = ground (arith, first_is-append xs ys)

  pub first_is-change_first :
      (q : A → Bool) (f : A → A) (xs : List A)
      → ((x : A) → p (f x) ≡ p x)
      → ((x : A) → u (f x) ≡ true)
      → first_is xs ≡ true
      → first_is (change_first q f xs) ≡ true
  first_is-change_first q f [] same sets h = h
  first_is-change_first q f (x ∷ xs) same sets h =
      ground (arith, same x, sets x, first_is-change_first q f xs same sets)

module _ {A : Type 0} where
  -- An element of a list.
  abbrev pub In : A → List A → Type 0
  In a [] = ⊥
  In a (x ∷ xs) = (x ≡ a) ⊎ In a xs

  pub In-find : (p : A → Bool) (xs : List A) (a : A) → find p xs ≡ some a → In a xs
  In-find p [] a h = ground arith
  In-find p (x ∷ xs) a h = elim (Bool-cases (p x)) [
    | inl e ↦ inl (ground arith)
    | inr e ↦ inr (In-find p xs a (ground arith))
  ]

  pub In-keep : (p : A → Bool) (xs : List A) (a : A) → In a xs → p a ≡ true → In a (keep p xs)
  In-keep p [] a i h = i
  In-keep p (x ∷ xs) a (inl e) h = rw (ap p e ∙ h) (inl e)
  In-keep p (x ∷ xs) a (inr i) h = elim (Bool-cases (p x)) [
    | inl e ↦ rw e (inr (In-keep p xs a i h))
    | inr e ↦ rw e (In-keep p xs a i h)
  ]
