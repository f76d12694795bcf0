-- ===== src/Prelude/Text.antt =====
-- Texts as the program reads them: white space, fields, membership of a text in a list.
use Prim.Native.Nat.{◌+◌, ℕ}
use Prim.Native.Char.{code}
use Prim.Native.String.{String}
use mathlib.Core.Path.{◌≡◌, refl}
use mathlib.Core.Bool.{Bool, true, false, ◌||◌, ◌&&◌}
use mathlib.Core.Option.{Option, none, some}
use mathlib.Core.List.{List, [], ◌∷◌, ◌++◌}
use native.Mathlib.Omega.{arith}
use text.Mathlib.Text.{◌==◌}
use idpico.Prelude.Tests.{ltb, leb, if◌then◌else◌}
use idpico.Prelude.Lists.{any}

-- The code points of a text.
abbrev pub codes : String → List ℕ
codes String.[] = []
codes (String.◌∷◌ c s) = code c ∷ codes s

abbrev is_code_point : ℕ → ℕ → Bool
is_code_point a b = leb a b && leb b a

-- `unicode.IsSpace`.
is_space : ℕ → Bool
is_space c =
    (leb 9 c && leb c 13)
    || is_code_point c 32
    || is_code_point c 0x85
    || is_code_point c 0xa0
    || is_code_point c 0x1680
    || (leb 0x2000 c && leb c 0x200a)
    || is_code_point c 0x2028
    || is_code_point c 0x2029
    || is_code_point c 0x202f
    || is_code_point c 0x205f
    || is_code_point c 0x3000

emit : String → List String → List String
emit w ws = if w == "" then ws else w ∷ ws

-- The word that a text begins with, and the words after it.
words : String → String × List String
unfolding is_space emit
words String.[] = ("", [])
words (String.◌∷◌ c s) =
    let (w, ws) = words s in if is_space (code c) then ("", emit w ws) else (String.◌∷◌ c w, ws)

-- `strings.Fields`: the words between runs of white space, none of them empty.
unfoldable pub fields : String → List String
unfolding words
fields s = let (w, ws) = words s in emit w ws

-- How many bytes of UTF-8 a code point takes.
abbrev code_bytes : ℕ → ℕ
code_bytes c = if ltb c 0x80 then 1 else if ltb c 0x800 then 2 else if ltb c 0x10000 then 3 else 4

-- `len(s)`
abbrev pub byte_length : String → ℕ
byte_length String.[] = 0
byte_length (String.◌∷◌ c s) = code_bytes (code c) + byte_length s

-- `strings.ReplaceAll` of a code point by the empty text.
abbrev pub drop_code : ℕ → String → String
drop_code d String.[] = ""
drop_code d (String.◌∷◌ c s) =
    if is_code_point (code c) d then drop_code d s else String.◌∷◌ c (drop_code d s)

-- What stands in front of the last `d` of a text, and what behind it.
abbrev pub split_last : ℕ → String → Option (String × String)
split_last d String.[] = none
split_last d (String.◌∷◌ c s) = elim (split_last d s) [
  | some (a, b) ↦ some (String.◌∷◌ c a, b)
  | none ↦ if is_code_point (code c) d then some ("", s) else none
]

-- The two parts that `strings.SplitN(s, d, 2)` gives, if there are two.
abbrev pub split_first : ℕ → String → Option (String × String)
split_first d String.[] = none
split_first d (String.◌∷◌ c s) =
    if is_code_point (code c) d
    then some ("", s)
    else elim (split_first d s) [ some (a, b) ↦ some (String.◌∷◌ c a, b) | none ↦ none ]

-- What `strings.HasPrefix` leaves behind the prefix.
abbrev pub cut : String → String → Option String
cut String.[] s = some s
cut (String.◌∷◌ c p) String.[] = none
cut (String.◌∷◌ c p) (String.◌∷◌ d s) = if is_code_point (code c) (code d) then cut p s else none

-- `strings.HasPrefix(s, p)`.
unfoldable pub text_prefix : String → String → Bool
text_prefix p s = elim (cut p s) [ none ↦ false | some _ ↦ true ]

-- The loop `for _, x := range xs { if x == t { return true } }`.
abbrev pub mem_text : String → List String → Bool
mem_text t xs = any (λ x. x == t) xs

pub mem_text-append :
    (t : String) (xs ys : List String) → mem_text t (xs ++ ys) ≡ (mem_text t xs || mem_text t ys)
mem_text-append t [] ys = refl
mem_text-append t (x ∷ xs) ys = ground (arith, mem_text-append t xs ys)

fields_test : fields "  openid\tprofile  email " ≡ "openid" ∷ "profile" ∷ "email" ∷ []
unfolding fields
fields_test = refl

trim_right : String → String
trim_right String.[] = ""
trim_right (String.◌∷◌ c s) =
    let rest = trim_right s in if rest == "" && is_space (code c) then "" else String.◌∷◌ c rest

trim_left : String → String
trim_left String.[] = ""
trim_left (String.◌∷◌ c s) =
    let rest = trim_left s in if is_space (code c) then rest else String.◌∷◌ c s

-- `strings.TrimSpace`
unfoldable pub trim_space : String → String
unfolding trim_left trim_right is_space
trim_space s = trim_right (trim_left s)

trim_space_test : trim_space " \t a b \n" ≡ "a b"
unfolding trim_space
trim_space_test = refl
