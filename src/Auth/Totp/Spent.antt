-- ===== src/Auth/Totp/Spent.antt =====
-- What the use of a recovery code leaves.
use idpico.Prelude.{
  ℕ, ◌+◌, String, true, ◌≡◌, List, [], ◌∷◌, some, ◌==◌, any, remove_first, eqb, eq_iff, byte_length,
  Bool-cases, inl, inr, arith, if◌then◌else◌,
}
use idpico.Auth.Totp.{TotpCrypto, normalize_recovery_code, use_recovery_code}

-- How often a text stands in a list.
abbrev pub count : String → List String → ℕ
count t [] = 0
count t (x ∷ xs) = (if x == t then 1 else 0) + count t xs

count-remove_first :
    (t h : String) (xs : List String)
    → any (λ x. x == h) xs ≡ true
    → count t (remove_first (λ x. x == h) xs) + (if h == t then 1 else 0) ≡ count t xs
count-remove_first t h [] found = absurd (ground arith)
count-remove_first t h (x ∷ xs) found = elim (Bool-cases (x == h)) [
  | inl e ↦ let same = (eq_iff x h).0 e in rw e (rw same (ground arith))
  | inr f ↦ rw f (ground (arith, count-remove_first t h xs (rw f at found)))
]

-- A recovery code that is used takes one of its hash out of the list, and nothing else.
pub use_recovery_code-count :
    (k : TotpCrypto) (hashes : List String) (code : String) (t : String) {rest : List String}
    → use_recovery_code k hashes code ≡ some rest
    → count t rest + (if k.hash_code (normalize_recovery_code k code) == t then 1 else 0)
      ≡ count t hashes
unfolding use_recovery_code
use_recovery_code-count k hashes code t {rest} used =
    let h = k.hash_code (normalize_recovery_code k code) in
    elim (Bool-cases (eqb (byte_length (normalize_recovery_code k code)) 10)) [
      | inr wrong ↦ absurd (ground (arith, rw wrong at used))
      | inl ten ↦ elim (Bool-cases (any (λ x. x == h) hashes)) [
        | inr missing ↦ absurd (ground (arith, rw (ten, missing) at used))
        | inl found ↦
            let e : remove_first (λ x. x == h) hashes ≡ rest =
              ground (arith, rw (ten, found) at used) in
            rw (← e) (count-remove_first t h hashes found)
      ]
    ]
