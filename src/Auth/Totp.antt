-- ===== src/Auth/Totp.antt =====
-- internal/auth/totp.go: one-time passwords (RFC 6238) and recovery codes.
pub mod Accepted
pub mod Spent
use Prim.Native.String.{◌++◌}
use idpico.Prelude.{
  ℕ, zero, suc, ◌+◌, ◌-◌, ◌*◌, ◌/◌, ◌%◌, ◌^◌, String, Bool, not, List, [], ◌∷◌, Option, none, some,
  ◌==◌, eqb, find, any, remove_first, byte_length, drop_code, trim_space, if◌then◌else◌,
}
use idpico.Prelude.Int.{ℤ, pos, add_ℕ, less_ℕ, quot_ℕ, to_uint64, ltb_ℤ}
use idpico.Domain.{Time, unix}

-- What the file takes of the standard library: `decode_base32` is `b32.DecodeString`, `hmac_sha1` the
-- MAC of a message under a key, `hash_code` the hexadecimal SHA-256 of `"idpico-recovery:"` with the
-- code behind it, and `raw_code n` the first ten characters of the lower-case base32 text of the n-th
-- seven random bytes.
pub record TotpCrypto : Type 0 where
  pub decode_base32 : String → Option (List ℕ)
  pub hmac_sha1 : List ℕ → List ℕ → List ℕ
  pub hash_code : String → String
  pub to_upper : String → String
  pub to_lower : String → String
  pub raw_code : ℕ → String

abbrev totp_digits : ℕ
totp_digits = 6

abbrev totp_period : ℕ
totp_period = 30

abbrev totp_skew : ℕ
totp_skew = 1

abbrev pub recovery_code_count : ℕ
recovery_code_count = 10

-- The bytes of a number, the highest first.
abbrev big_endian : ℕ → ℕ → List ℕ
big_endian zero n = []
big_endian (suc bytes) n = (n / 256 ^ bytes % 256) ∷ big_endian bytes n

-- A read past the end would be a panic; the sum has 20 bytes, and the offset is at most 15.
abbrev byte_at : List ℕ → ℕ → ℕ
byte_at [] i = 0
byte_at (b ∷ bs) zero = b
byte_at (b ∷ bs) (suc i) = byte_at bs i

abbrev last_byte : List ℕ → ℕ
last_byte [] = 0
last_byte (b ∷ []) = b
last_byte (b ∷ c ∷ bs) = last_byte (c ∷ bs)

digit : ℕ → String
digit d =
    if eqb d 0
    then "0"
    else if eqb d 1
    then "1"
    else if eqb d 2
    then "2"
    else if eqb d 3
    then "3"
    else if eqb d 4
    then "4"
    else if eqb d 5
    then "5"
    else if eqb d 6
    then "6"
    else if eqb d 7
    then "7"
    else if eqb d 8
    then "8"
    else "9"

-- `fmt.Sprintf("%0*d", n, m)` of a number below 10 ^ n.
digits : ℕ → ℕ → String
unfolding digit
digits zero m = ""
digits (suc n) m = digit (m / 10 ^ n % 10) ++ digits n m

-- The truncation of RFC 4226: 31 bits of the sum, from the offset that its last four bits give.
truncated : List ℕ → ℕ
truncated sum =
    let off = last_byte sum % 16 in
    (byte_at sum off % 128) * 256 ^ 3
    + byte_at sum (off + 1) * 256 ^ 2
    + byte_at sum (off + 2) * 256
    + byte_at sum (off + 3)

unfoldable pub totp_code : TotpCrypto → List ℕ → ℤ → String
unfolding digits truncated
totp_code k key step =
    digits totp_digits (truncated (k.hmac_sha1 key (big_endian 8 (to_uint64 step))) % 1_000_000)

unfoldable pub totp_step : Time → ℤ
totp_step t = quot_ℕ (unix t) totp_period

code_of_key : TotpCrypto → Option (List ℕ) → Time → Option String
code_of_key k none t = none
code_of_key k (some key) t = some (totp_code k key (totp_step t))

generate_totp : TotpCrypto → String → Time → Option String
unfolding code_of_key
generate_totp k secret t = code_of_key k (k.decode_base32 (k.to_upper secret)) t

-- The loop over the steps of the window: the rounds that are left, and the step that is tried next.
try_steps : TotpCrypto → List ℕ → String → ℤ → ℕ → ℤ → Option ℤ
try_steps k key code last zero step = none
try_steps k key code last (suc rounds) step =
    let rest = try_steps k key code last rounds (add_ℕ step 1) in
    if not (ltb_ℤ last step) then rest else if totp_code k key step == code then some step else rest

abbrev spaceless : String → String
spaceless code = drop_code 32 (trim_space code)

match_code : TotpCrypto → Option (List ℕ) → String → Time → ℤ → Option ℤ
unfolding try_steps
match_code k none code now last = none
match_code k (some key) code now last =
    try_steps k key code last (1 + 2 * totp_skew) (less_ℕ (totp_step now) totp_skew)

-- The matched step, or `none` for `0, false`.
unfoldable pub verify_totp : TotpCrypto → String → String → Time → ℤ → Option ℤ
unfolding match_code
verify_totp k secret code now last =
    if not (eqb (byte_length (spaceless code)) totp_digits)
    then none
    else match_code k (k.decode_base32 (k.to_upper secret)) (spaceless code) now last

-- `raw[:5]` and `raw[5:]`; the raw codes are ASCII.
abbrev first_chars : ℕ → String → String
first_chars zero s = ""
first_chars (suc n) String.[] = ""
first_chars (suc n) (String.◌∷◌ c s) = String.◌∷◌ c (first_chars n s)

abbrev other_chars : ℕ → String → String
other_chars zero s = s
other_chars (suc n) String.[] = ""
other_chars (suc n) (String.◌∷◌ c s) = other_chars n s

abbrev shown : String → String
shown raw = first_chars 5 raw ++ ("-" ++ other_chars 5 raw)

-- The codes to show and the hashes to store, from the n-th random bytes on.
unfoldable pub new_recovery_codes : TotpCrypto → ℕ → ℕ → List String × List String
new_recovery_codes k zero n = ([], [])
new_recovery_codes k (suc count) n =
    let (codes, hashes) = new_recovery_codes k count (n + 1) in
    (shown (k.raw_code n) ∷ codes, k.hash_code (k.raw_code n) ∷ hashes)

unfoldable pub normalize_recovery_code : TotpCrypto → String → String
normalize_recovery_code k code = k.to_lower (drop_code 32 (drop_code 45 (trim_space code)))

-- The hashes that are left, or `none` for a code that does not match.
unfoldable pub use_recovery_code : TotpCrypto → List String → String → Option (List String)
use_recovery_code k hashes code =
    let n = normalize_recovery_code k code in
    if not (eqb (byte_length n) 10)
    then none
    else let h = k.hash_code n in
      if any (λ stored. stored == h) hashes
      then some (remove_first (λ stored. stored == h) hashes)
      else none
