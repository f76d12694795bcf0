-- ===== src/Auth/Pending/Granted.antt =====
-- When an attempt is granted.
use idpico.Prelude.{String, false, ◌≡◌, refl, Option, none, some, leb, Bool-cases, inl, inr, arith}
use idpico.Prelude.Table.{Table, get_at}
use idpico.Domain.{Time, PendingLogin, after}
use idpico.Auth.Pending
use idpico.Auth.Pending.{counted, pending_login_attempts, reserve_of}

-- The login is entered, in time, and has attempts left.
pub record IsOpen (token : String) (now : Time) (entries : Table PendingLogin) (p : PendingLogin)
    : Type 0 where
  pub entered : get_at entries token ≡ some p
  pub in_time : after now p.expires ≡ false
  pub attempts_left : leb pending_login_attempts p.attempts ≡ false

reserve_of-some :
    (token : String) (now : Time) (entries : Table PendingLogin) (o : Option PendingLogin)
    {granted : PendingLogin}
    → get_at entries token ≡ o
    → (reserve_of token now entries o).0 ≡ some granted
    → (p : PendingLogin) × IsOpen token now entries p × (granted ≡ counted p)
unfolding reserve_of
reserve_of-some token now entries none found h = absurd (ground arith)
reserve_of-some token now entries (some e) {granted} found h =
    elim (Bool-cases (after now e.expires)) [
      | inl late ↦ absurd (ground (arith, rw late at h))
      | inr soon ↦ elim (Bool-cases (leb 5 e.attempts)) [
        | inl over ↦ absurd (ground (arith, rw (soon, over) at h))
        | inr fits ↦
            let same : granted ≡ counted e = ground (arith, rw (soon, fits) at h) in
            (e, record { entered = found; in_time = soon; attempts_left = fits }, same)
      ]
    ]

pub reserve-some :
    (token : String) (now : Time) (entries : Table PendingLogin) {granted : PendingLogin}
    → (Pending.reserve token now entries).0 ≡ some granted
    → (p : PendingLogin) × IsOpen token now entries p × (granted ≡ counted p)
unfolding Pending.reserve
reserve-some token now entries h = reserve_of-some token now entries (get_at entries token) refl h
