-- ===== src/Auth/Csrf/Signed.antt =====
-- Which tokens are accepted, and that those which are handed out are.
use Prim.Native.Char.{Char}
use Prim.Native.String.append
use Prim.Native.String.{◌++◌}
use idpico.Prelude.{
  ltb, inl, inr, eq_refl, Bool-cases, ◌==◌, ◌+◌, ◌*◌, ◌≤◌, arith, ◌/◌, String, ◌*◌, Bool, false,
  not-true, ◌≡◌, refl, sym, ap, ◌∙◌, Option, none, some, split_last, eq_iff,
}
use idpico.Prelude.Int.{ℤ, pos, negsuc, add_ℕ, ltb_ℤ}
use idpico.Prelude.Table.{get_at}
use idpico.Domain.{Time, second}
use idpico.World.{World}
use idpico.Exec.{◌>>=◌, Done, ok}
use idpico.Exec.Inversion.{bind-ok, check-ok, clock-ok, require-ok, raise-ok}
use idpico.Auth.Session.{HttpRequest}
use idpico.Auth.Csrf.{
  generate_token, true, ◌>>=◌, signed_token, unix, CsrfService, csrf_ttl, csrf_cookie_name,
  from_unix, form_token, check_timestamp, validate_token_format, validate_token,
}

-- The number is an int64.
abbrev pub fits_int64 : ℤ → Bool
fits_int64 (pos n) = ltb n 9223372036854775808
fits_int64 (negsuc n) = ltb n 9223372036854775808

-- The token is out of date at a time.
abbrev is_stale : ℤ → Time → Bool
is_stale n now = ltb_ℤ (add_ℕ (from_unix n) (csrf_ttl * second)) (pos now)

-- A token that carries its own signature and is in time.
pub record IsSigned (s : CsrfService) (token : String) (now : Time) : Type 0 where
  pub signed : String
  pub signature : String
  pub parts : split_last 46 token ≡ some (signed, signature)
  pub authentic : signature ≡ s.sign signed
  pub timestamp : ℤ
  pub scanned : s.scan_timestamp signed ≡ some timestamp
  pub fresh : is_stale timestamp now ≡ false

check_timestamp-ok :
    (o : Option ℤ) (w : World) {u : Done} {w' : World}
    → check_timestamp o w ≡ (ok u, w')
    → (n : ℤ) × (o ≡ some n) × (is_stale n w.now ≡ false) × (w' ≡ w)
unfolding check_timestamp
check_timestamp-ok none w h = absurd (raise-ok _ w h)
check_timestamp-ok (some n) w h =
    let (t, w₁, c, h₁) = bind-ok _ _ w h in
    let (now, e) = clock-ok w c in
    let (fits, e') = check-ok _ _ w₁ h₁ in
    (n, refl, ap (λ (x : Time). is_stale n x) (sym now) ∙ not-true _ fits, e' ∙ e)

validate_token_format-ok :
    (s : CsrfService) (token : String) (w : World) {u : Done} {w' : World}
    → validate_token_format s token w ≡ (ok u, w')
    → IsSigned s token w.now × (w' ≡ w)
unfolding validate_token_format
validate_token_format-ok s token w h =
    let ((a, b), w₁, q, h₁) = bind-ok _ _ w h in
    let (parts, e₁) = require-ok _ _ w q in
    let (_, w₂, c, h₂) = bind-ok _ _ w₁ h₁ in
    let (_, e₂) = check-ok _ _ w₁ c in
    let (_, w₃, d, h₃) = bind-ok _ _ w₂ h₂ in
    let (same, e₃) = check-ok _ _ w₂ d in
    let (n, scanned, fresh, e₄) = check_timestamp-ok (s.scan_timestamp a) w₃ h₃ in
    let back = e₃ ∙ (e₂ ∙ e₁) in
    (
      record {
        signed = a;
        signature = b;
        parts = parts;
        authentic = (eq_iff b (s.sign a)).0 same;
        timestamp = n;
        scanned = scanned;
        fresh = ap (λ (v : World). is_stale n v.now) (sym back) ∙ fresh;
      },
      e₄ ∙ back,
    )

-- A request is accepted only if its form, or its header where the form has none, carries the token of
-- the cookie, and this carries its own signature under the secret and is at most an hour old; the
-- check changes nothing.
pub validate_token-ok :
    (s : CsrfService) (r : HttpRequest) (w : World) {u : Done} {w' : World}
    → validate_token s r w ≡ (ok u, w')
    → (get_at r.cookies (csrf_cookie_name s) ≡ some (form_token r))
      × IsSigned s (form_token r) w.now
      × (w' ≡ w)
unfolding validate_token
validate_token-ok s r w h =
    let (_, w₁, c, h₁) = bind-ok _ _ w h in
    let (_, e₁) = check-ok _ _ w c in
    let (cookie, w₂, q, h₂) = bind-ok _ _ w₁ h₁ in
    let (found, e₂) = require-ok _ _ w₁ q in
    let (_, w₃, d, h₃) = bind-ok _ _ w₂ h₂ in
    let (same, e₃) = check-ok _ _ w₂ d in
    let (signed, e₄) = validate_token_format-ok s (form_token r) w₃ h₃ in
    let back = e₃ ∙ (e₂ ∙ e₁) in
    (
      found ∙ ap (λ (x : String). some x) (sym ((eq_iff (form_token r) cookie).0 same)),
      rw back at signed,
      e₄ ∙ back,
    )

dot_in_front : (behind : String) → "." ++ behind ≡ String.◌∷◌ "." behind
dot_in_front behind = append.cons "." "" behind ∙ ap (String.◌∷◌ ".") (append.nil behind)

colon_in_front : (behind : String) → ":" ++ behind ≡ String.◌∷◌ ":" behind
colon_in_front behind = append.cons ":" "" behind ∙ ap (String.◌∷◌ ":") (append.nil behind)

split_last-joined :
    (front behind : String)
    → split_last 46 behind ≡ none
    → split_last 46 (front ++ ("." ++ behind)) ≡ some (front, behind)
split_last-joined String.[] behind h =
    rw (append.nil ("." ++ behind), dot_in_front behind) (rw h refl)
split_last-joined (String.◌∷◌ c front) behind h =
    rw (append.cons c front ("." ++ behind), split_last)
      (rw (split_last-joined front behind h) refl)

from_unix-unix : (t : Time) → from_unix (unix t) ≡ pos (t / second * second)
from_unix-unix t = ground arith

in_hour : (t now : Time) → now + second ≤ t + csrf_ttl * second → is_stale (unix t) now ≡ false
in_hour t now h = ground (arith, from_unix-unix t)

abbrev has_chars : String → Bool
has_chars String.[] = false
has_chars (String.◌∷◌ c s) = true

full : (c : Char) (s : String) → String.◌∷◌ c s ≡ "" → ⊥
full c s e = let f : true ≡ false = ap has_chars e in cc f

filled : (front : String) (c : Char) (behind : String) → front ++ String.◌∷◌ c behind ≡ "" → ⊥
filled String.[] c behind e = full c behind (sym (append.nil (String.◌∷◌ c behind)) ∙ e)
filled (String.◌∷◌ d front) c behind e =
    full d (front ++ String.◌∷◌ c behind) (sym (append.cons d front (String.◌∷◌ c behind)) ∙ e)

not_empty : (s : String) → (s ≡ "" → ⊥) → (s == "") ≡ false
not_empty s h = elim (Bool-cases (s == "")) [ inr f ↦ f | inl e ↦ absurd (h ((eq_iff s "").0 e)) ]

not_empty_colon : (front behind : String) → ((front ++ (":" ++ behind)) == "") ≡ false
not_empty_colon front behind =
    not_empty _ (λ e. filled front ":" behind (rw (← colon_in_front behind) e))

not_empty_dot : (front behind : String) → ((front ++ ("." ++ behind)) == "") ≡ false
not_empty_dot front behind =
    not_empty _ (λ e. filled front "." behind (rw (← dot_in_front behind) e))

check_timestamp-fresh :
    (n : ℤ) (w : World) → is_stale n w.now ≡ false → check_timestamp (some n) w ≡ (ok tt, w)
unfolding check_timestamp ◌>>=◌
check_timestamp-fresh n w h = rw h refl

validate_token_format-fresh :
    (s : CsrfService) (signed : String) (n : ℤ) (w : World)
    → split_last 46 (s.sign signed) ≡ none
    → (s.sign signed == "") ≡ false
    → (signed == "") ≡ false
    → s.scan_timestamp signed ≡ some n
    → is_stale n w.now ≡ false
    → validate_token_format s (signed ++ ("." ++ s.sign signed)) w ≡ (ok tt, w)
unfolding validate_token_format ◌>>=◌
validate_token_format-fresh s signed n w dotless a b reads fresh =
    rw (split_last-joined signed (s.sign signed) dotless, b, a, eq_refl (s.sign signed), reads)
      (check_timestamp-fresh n w fresh)

signed_token-validates :
    (s : CsrfService) (r : HttpRequest) (random : String) (t : Time) (w : World)
    → ((x : String) → split_last 46 (s.sign x) ≡ none)
    → ((x : String) → (s.sign x == "") ≡ false)
    → ((n : ℤ) (x : String)
        → fits_int64 n ≡ true
        → s.scan_timestamp (s.print_int n ++ (":" ++ x)) ≡ some n)
    → r.csrf_field ≡ signed_token s random t
    → get_at r.cookies (csrf_cookie_name s) ≡ some (signed_token s random t)
    → fits_int64 (unix t) ≡ true
    → w.now + second ≤ t + csrf_ttl * second
    → validate_token s r w ≡ (ok tt, w)
unfolding validate_token signed_token ◌>>=◌
signed_token-validates s r random t w dotless nonempty reads field cookie fits soon =
    let signed = s.print_int (unix t) ++ (":" ++ random) in
    let token = signed ++ ("." ++ s.sign signed) in
    let given : (r.csrf_field == "") ≡ false = rw field (not_empty_dot signed (s.sign signed)) in
    let valid =
      validate_token_format-fresh s signed (unix t) w (dotless signed) (nonempty signed)
        (not_empty_colon (s.print_int (unix t)) random) (reads (unix t) random fits)
        (in_hour t w.now soon) in
    rw (given, given, cookie, field, eq_refl token) valid

generate_token-ok :
    (s : CsrfService) (w : World) {token : String} {w' : World}
    → generate_token s w ≡ (ok token, w')
    → token ≡ signed_token s (w.host.random w.minted) w.now
unfolding generate_token ◌>>=◌
generate_token-ok s w h = ground arith

-- A token that is handed out is accepted again for nearly an hour, given that signatures are not empty
-- and hold no dot, that what is printed of an int64 is read back in front of a colon, that the token
-- was made at a time whose seconds are an int64, and that the request carries the token in its form
-- and in the cookie.
pub generate_token-validate_token :
    (s : CsrfService) (r : HttpRequest) (u w : World) {token : String} {u' : World}
    → generate_token s u ≡ (ok token, u')
    → ((x : String) → split_last 46 (s.sign x) ≡ none)
    → ((x : String) → (s.sign x == "") ≡ false)
    → ((n : ℤ) (x : String)
        → fits_int64 n ≡ true
        → s.scan_timestamp (s.print_int n ++ (":" ++ x)) ≡ some n)
    → r.csrf_field ≡ token
    → get_at r.cookies (csrf_cookie_name s) ≡ some token
    → fits_int64 (unix u.now) ≡ true
    → w.now + second ≤ u.now + csrf_ttl * second
    → validate_token s r w ≡ (ok tt, w)
generate_token-validate_token s r u w made dotless nonempty reads field cookie fits soon =
    let e = generate_token-ok s u made in
    signed_token-validates s r (u.host.random u.minted) u.now w dotless nonempty reads (field ∙ e)
      (rw e at cookie) fits soon
