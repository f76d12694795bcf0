-- ===== src/Oidc/Authorize/Number.antt =====
-- `strconv.Atoi` on a 64-bit platform.
use Prim.Native.Char.{code}
use idpico.Prelude.{
  ℕ, zero, suc, ◌+◌, ◌-◌, ◌*◌, String, ◌&&◌, Option, none, some, ◌≡◌, refl, ltb, leb, if◌then◌else◌,
}
use idpico.Prelude.Int.{ℤ, pos, negsuc}

-- The value of a run of decimal digits, on top of `n`.
digits : ℕ → String → Option ℕ
digits n String.[] = some n
digits n (String.◌∷◌ c s) =
    let rest = digits (n * 10 + (code c - b'0')) s in
    if leb b'0' (code c) && leb (code c) b'9' then rest else none

abbrev some_digits : String → Option ℕ
unfolding digits
some_digits String.[] = none
some_digits (String.◌∷◌ c s) = digits 0 (String.◌∷◌ c s)

in_range : Option ℕ → Option ℤ
in_range none = none
in_range (some n) = if ltb n 9223372036854775808 then some (pos n) else none

negated : Option ℕ → Option ℤ
negated none = none
negated (some zero) = some (pos 0)
negated (some (suc n)) = if ltb n 9223372036854775808 then some (negsuc n) else none

unfoldable pub atoi : String → Option ℤ
unfolding digits in_range negated
atoi String.[] = none
atoi (String.◌∷◌ c s) =
    if leb b'-' (code c) && leb (code c) b'-'
    then negated (some_digits s)
    else if leb b'+' (code c) && leb (code c) b'+'
    then in_range (some_digits s)
    else in_range (digits 0 (String.◌∷◌ c s))

atoi_tests :
    (atoi "3600" ≡ some (pos 3600))
    × (atoi "-5" ≡ some (negsuc 4))
    × (atoi "1_000" ≡ none)
    × (atoi "9223372036854775808" ≡ none)
unfolding atoi
atoi_tests = (refl, refl, refl, refl)
