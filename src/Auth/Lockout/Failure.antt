-- ===== src/Auth/Lockout/Failure.antt =====
-- What one failure does to what is known of an address.
use idpico.Prelude.{
  eq_refl, ℕ, ◌+◌, ◌<◌, String, true, Option, none, some, ◌≡◌, ◌⊎◌, inl, inr, leb, arith,
}
use idpico.Prelude.Table.{get_at-put_at}
use idpico.Domain.{Time}
use idpico.Auth.Lockout.{
  get_at, trim_space, kept_lock, counted, lockout_key, failed_entry, LockoutService, Entry,
  entry_of, record_failure,
}

pub failure-max :
    (s : LockoutService) (email : String) (t : Time)
    → (record_failure s email t).0.max_attempts ≡ s.max_attempts
unfolding record_failure
failure-max s email t = ground arith

pub failure-duration :
    (s : LockoutService) (email : String) (t : Time)
    → (record_failure s email t).0.duration ≡ s.duration
unfolding record_failure
failure-duration s email t = ground arith

pub failure-entry :
    (s : LockoutService) (email : String) (t : Time)
    → 0 < s.max_attempts
    → entry_of (record_failure s email t).0 email ≡ some (failed_entry s (entry_of s email) t).0
unfolding record_failure entry_of lockout_key
failure-entry s email t enabled =
    let key = s.to_lower (trim_space email) in
    let written = failed_entry s (get_at s.attempts key) t in
    ground (arith, get_at-put_at s.attempts key key written.0, eq_refl key)

pub failure-told :
    (s : LockoutService) (email : String) (t : Time)
    → 0 < s.max_attempts
    → (record_failure s email t).1 ≡ (failed_entry s (entry_of s email) t).1
unfolding record_failure
failure-told s email t enabled = ground arith

-- What one more failure does to `c` failures without a lock.
pub failed-Counts :
    (s : LockoutService) (o : Option Entry) (t : Time) {c : ℕ}
    → (o ≡ none × c ≡ 0) ⊎ (o ≡ some (record { count = c; locked_at = 0 }))
    → c + 1 < s.max_attempts
    → (failed_entry s o t).0 ≡ record { count = c + 1; locked_at = 0 }
unfolding failed_entry counted kept_lock
failed-Counts s o t (inl (p, q)) below = rw p (rw q (ground arith))
failed-Counts s o t (inr p) below = rw p (ground arith)

pub failed-told :
    (s : LockoutService) (o : Option Entry) (t : Time) {c : ℕ}
    → (o ≡ none × c ≡ 0) ⊎ (o ≡ some (record { count = c; locked_at = 0 }))
    → (failed_entry s o t).1 ≡ leb s.max_attempts (c + 1)
unfolding failed_entry counted kept_lock
failed-told s o t (inl (p, q)) = rw p (rw q (ground arith))
failed-told s o t (inr p) = rw p (ground arith)

pub failed-locks :
    (s : LockoutService) (o : Option Entry) (t : Time)
    → (failed_entry s o t).1 ≡ true
    → (failed_entry s o t).0.locked_at ≡ t × leb s.max_attempts (failed_entry s o t).0.count ≡ true
unfolding failed_entry counted kept_lock
failed-locks s o t p = ground arith

pub failure-enabled :
    (s : LockoutService) (email : String) (t : Time)
    → (record_failure s email t).1 ≡ true
    → 0 < s.max_attempts
unfolding record_failure
failure-enabled s email t told = ground arith
