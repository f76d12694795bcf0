-- ===== src/Store/Sort.antt =====
-- `sort.Slice` as the repositories use it. The order of elements that compare equal is not
-- specified; here they keep their order.
use idpico.Prelude.{Bool-cases, ◌≡◌, ◌⊎◌, inl, inr, In, Bool, List, [], ◌∷◌, if◌then◌else◌}
use idpico.Domain.{Time, after}

module _ {A : Type 0} (before : A → A → Bool) where
  abbrev insert : A → List A → List A
  insert x [] = x ∷ []
  insert x (y ∷ ys) = if before y x then y ∷ insert x ys else x ∷ y ∷ ys

  unfoldable pub sort : List A → List A
  sort [] = []
  sort (x ∷ xs) = insert x (sort xs)

-- `func(i, j int) bool { return out[i].CreatedAt.After(out[j].CreatedAt) }`
unfoldable pub newest_first : {A : Type 0} → (A → Time) → List A → List A
unfolding sort
newest_first created_at xs = sort (λ x y. after (created_at x) (created_at y)) xs

-- Sorting keeps every element.
module _ {A : Type 0} (before : A → A → Bool) where
  In-insert : (x : A) (ys : List A) (a : A) → (x ≡ a) ⊎ In a ys → In a (insert before x ys)
  In-insert x [] a i = i
  In-insert x (y ∷ ys) a i = elim (Bool-cases (before y x)) [
    | inl e ↦ rw e (elim i [
      | inl p ↦ inr (In-insert x ys a (inl p))
      | inr (inl p) ↦ inl p
      | inr (inr j) ↦ inr (In-insert x ys a (inr j))
    ])
    | inr e ↦ rw e i
  ]

  In-sort : (xs : List A) (a : A) → In a xs → In a (sort before xs)
  unfolding sort
  In-sort [] a i = i
  In-sort (x ∷ xs) a (inl e) = In-insert x (sort before xs) a (inl e)
  In-sort (x ∷ xs) a (inr i) = In-insert x (sort before xs) a (inr (In-sort xs a i))

pub In-newest_first :
    {A : Type 0} (created_at : A → Time) (xs : List A) (a : A)
    → In a xs
    → In a (newest_first created_at xs)
unfolding newest_first
In-newest_first created_at xs a i = In-sort _ xs a i
