-- ===== src/Auth/Totp/Accepted.antt =====
-- Which one-time passwords are accepted.
use idpico.Prelude.{
  ℕ, zero, suc, String, true, ◌≡◌, refl, ◌⊎◌, inl, inr, List, Option, none, some, ◌==◌, eqb, eq_iff,
  Bool-cases, arith,
}
use idpico.Prelude.Int.{ℤ, add_ℕ, less_ℕ, ltb_ℤ}
use idpico.Domain.{Time}
use idpico.Auth.Totp.{
  byte_length, TotpCrypto, totp_code, totp_step, try_steps, match_code, spaceless, verify_totp,
}

-- `step` is one of the `rounds` steps from `first` on.
abbrev pub IsAmong : ℕ → ℤ → ℤ → Type 0
IsAmong zero first step = ⊥
IsAmong (suc rounds) first step = (step ≡ first) ⊎ IsAmong rounds (add_ℕ first 1) step

try_steps-some :
    (k : TotpCrypto) (key : List ℕ) (code : String) (last : ℤ) (rounds : ℕ) (first : ℤ) {step : ℤ}
    → try_steps k key code last rounds first ≡ some step
    → (ltb_ℤ last step ≡ true) × (totp_code k key step ≡ code) × IsAmong rounds first step
unfolding try_steps
try_steps-some k key code last zero first h = absurd (ground arith)
try_steps-some k key code last (suc rounds) first {step} h = elim (Bool-cases (ltb_ℤ last first)) [
  | inr early ↦
      let (a, b, c) =
        try_steps-some k key code last rounds (add_ℕ first 1) {step = step} (rw early at h) in
      (a, b, inr c)
  | inl late ↦ elim (Bool-cases (totp_code k key first == code)) [
    | inr differs ↦
        let (a, b, c) =
          try_steps-some k key code last rounds (add_ℕ first 1) {step = step}
            (rw (late, differs) at h) in
        (a, b, inr c)
    | inl same ↦
        let e : first ≡ step = ground (arith, rw (late, same) at h) in
        (rw (← e) late, rw (← e) ((eq_iff (totp_code k key first) code).0 same), inl (ground arith))
  ]
]

-- What an accepted code is.
pub record Matches (k : TotpCrypto) (secret code : String) (now : Time) (last step : ℤ)
    : Type 0 where
  pub key : List ℕ
  pub decoded : k.decode_base32 (k.to_upper secret) ≡ some key
  pub right : totp_code k key step ≡ spaceless code
  pub later : ltb_ℤ last step ≡ true
  pub near : IsAmong 3 (less_ℕ (totp_step now) 1) step

match_code-some :
    (k : TotpCrypto) (o : Option (List ℕ)) (code : String) (now : Time) (last : ℤ) {step : ℤ}
    → match_code k o code now last ≡ some step
    → (key : List ℕ) × (o ≡ some key)
      × (totp_code k key step ≡ code)
      × (ltb_ℤ last step ≡ true)
      × IsAmong 3 (less_ℕ (totp_step now) 1) step
unfolding match_code
match_code-some k none code now last h = absurd (ground arith)
match_code-some k (some key) code now last h =
    let (a, b, c) = try_steps-some k key code last 3 (less_ℕ (totp_step now) 1) h in
    (key, refl, b, a, c)

-- A code is accepted only for a step after the last one that was used, and only for the step of the
-- moment or one of its two neighbours, whose password under the decoded secret it is.
pub verify_totp-some :
    (k : TotpCrypto) (secret code : String) (now : Time) (last : ℤ) {step : ℤ}
    → verify_totp k secret code now last ≡ some step
    → Matches k secret code now last step
unfolding verify_totp
verify_totp-some k secret code now last {step} h =
    elim (Bool-cases (eqb (byte_length (spaceless code)) 6)) [
      | inr wrong ↦ absurd (ground (arith, rw wrong at h))
      | inl six ↦
          let (key, d, r, l, n) =
            match_code-some k (k.decode_base32 (k.to_upper secret)) (spaceless code) now last
              {step = step} (rw six at h) in
          record { key = key; decoded = d; right = r; later = l; near = n }
    ]
