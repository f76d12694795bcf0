-- ===== src/Prelude/Table.antt =====
-- A Go map with text keys, as an association list.
use idpico.Prelude.Tests.{if◌then◌else◌}
use Prim.Native.String.{String}
use mathlib.Core.Path.{◌≡◌, refl}
use mathlib.Core.Option.{Option, none, some}
use mathlib.Core.List.{List, [], ◌∷◌}
use native.Mathlib.Omega.{arith}
use text.Mathlib.Text.{◌==◌}
use text.Mathlib.TextEquality.{eq_iff}

abbrev pub Table {ℓ} : Type ℓ → Type ℓ
Table V = List (String × V)

module _ {ℓ} {V : Type ℓ} where
  -- `value, ok := rows[key]`
  unfoldable pub get_at : Table V → String → Option V
  get_at [] key = none
  get_at (row ∷ rows) key = if row.0 == key then some row.1 else get_at rows key

  -- `rows[key] = value`
  unfoldable pub put_at : Table V → String → V → Table V
  put_at [] key value = (key, value) ∷ []
  put_at (row ∷ rows) key value =
      let later = put_at rows key value in if row.0 == key then (key, value) ∷ rows else row ∷ later

  -- `delete(rows, key)`
  unfoldable pub delete_at : Table V → String → Table V
  delete_at [] key = []
  delete_at (row ∷ rows) key =
      let later = delete_at rows key in if row.0 == key then later else row ∷ later

  pub get_at-put_at :
      (rows : Table V) (key other : String) (value : V)
      → get_at (put_at rows key value) other
        ≡ (if key == other then some value else get_at rows other)
  unfolding get_at put_at
  get_at-put_at [] key other value = refl
  get_at-put_at (row ∷ rows) key other value =
      let same = get_at-put_at rows key other value in
      ground (arith, same, eq_iff row.0 key, eq_iff key other, eq_iff row.0 other)

  pub get_at-delete_at :
      (rows : Table V) (key other : String)
      → get_at (delete_at rows key) other ≡ (if key == other then none else get_at rows other)
  unfolding get_at delete_at
  get_at-delete_at [] key other = ground arith
  get_at-delete_at (row ∷ rows) key other =
      let same = get_at-delete_at rows key other in
      ground (arith, same, eq_iff row.0 key, eq_iff key other, eq_iff row.0 other)
