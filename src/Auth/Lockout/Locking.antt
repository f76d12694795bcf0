-- ===== src/Auth/Lockout/Locking.antt =====
-- When an account is locked, and for how long.
use idpico.Prelude.{
  eq_iff, sym, ap, ◌≢◌, ◌∙◌, subst, ◌≤◌, eq_refl, ℕ, ◌+◌, ◌-◌, ◌<◌, String, true, false, none, some,
  ◌≡◌, ◌⊎◌, inl, inr, refl, List, [], ◌∷◌, ltb, leb, length, arith,
}
use idpico.Prelude.Int.{pos}
use idpico.Prelude.Table.{get_at-delete_at, get_at-put_at}
use idpico.Domain.{Time}
use idpico.Auth.Lockout.{
  locked_entry, remaining_of, record_success, get_at, trim_space, lockout_key, failed_entry,
  LockoutService, Entry, entry_of, is_locked, record_failure, get_lockout_remaining,
  get_remaining_attempts,
}
use idpico.Auth.Lockout.Failure.{
  failure-max, failure-duration, failure-entry, failure-told, failed-Counts, failed-told,
  failed-locks, failure-enabled,
}

-- An account is locked exactly while there is time left on its lock.
pub locked_iff_remaining :
    (s : LockoutService) (email : String) (now : Time)
    → is_locked s email now ≡ ltb 0 (get_lockout_remaining s email now)
unfolding is_locked get_lockout_remaining
locked_iff_remaining s email now = ground arith

-- Failures at the given times, the first one first.
unfoldable pub failures : LockoutService → String → List Time → LockoutService
failures s email [] = s
failures s email (t ∷ ts) = failures (record_failure s email t).0 email ts

-- The address has `c` failures counted on it and no lock.
abbrev Counts : LockoutService → String → ℕ → Type 0
Counts s email c =
    (entry_of s email ≡ none × c ≡ 0)
    ⊎ (entry_of s email ≡ some (record { count = c; locked_at = 0 }))

failure-Counts :
    (s : LockoutService) (email : String) (t : Time) {c : ℕ}
    → Counts s email c
    → c + 1 < s.max_attempts
    → Counts (record_failure s email t).0 email (c + 1)
failure-Counts s email t h below =
    inr (
      failure-entry s email t (omega arith)
      ∙ ap some (failed-Counts s (entry_of s email) t h below))

failures-Counts :
    (s : LockoutService) (email : String) (ts : List Time) {c n : ℕ}
    → n ≡ c + length ts
    → Counts s email c
    → n < s.max_attempts
    → Counts (failures s email ts) email n
unfolding failures
failures-Counts s email [] e h below = subst (Counts s email) (omega arith) h
failures-Counts s email (t ∷ ts) e h below =
    failures-Counts (record_failure s email t).0 email ts (omega arith)
      (failure-Counts s email t h (omega arith)) (rw (failure-max s email t) below)

failures-max :
    (s : LockoutService) (email : String) (ts : List Time)
    → (failures s email ts).max_attempts ≡ s.max_attempts
unfolding failures
failures-max s email [] = refl
failures-max s email (t ∷ ts) =
    failures-max (record_failure s email t).0 email ts ∙ failure-max s email t

Counts-remaining :
    (s : LockoutService) (email : String) (now : Time) {c : ℕ}
    → Counts s email c
    → 0 < s.max_attempts
    → is_locked s email now ≡ false × get_remaining_attempts s email now ≡ pos (s.max_attempts - c)
unfolding is_locked get_remaining_attempts remaining_of locked_entry
Counts-remaining s email now (inl (p, q)) enabled = rw p (rw q (ground arith))
Counts-remaining s email now (inr p) enabled = rw p (ground arith)

-- Of `n` failures on an address that had none, with a limit of more than `n`, none locks the
-- account, the attempts that remain are the limit less `n`, whenever they are asked for, and the
-- next failure reports a lock exactly when it is the one that reaches the limit.
pub failures-count :
    (s : LockoutService) (email : String) (ts : List Time) (t now : Time)
    → entry_of s email ≡ none
    → length ts < s.max_attempts
    → is_locked (failures s email ts) email now ≡ false
      × get_remaining_attempts (failures s email ts) email now ≡ pos (s.max_attempts - length ts)
      × (record_failure (failures s email ts) email t).1 ≡ leb s.max_attempts (length ts + 1)
failures-count s email ts t now absent below =
    let s' = failures s email ts in
    let same = failures-max s email ts in
    let h =
      failures-Counts s email ts {c = 0} {n = length ts} (omega arith) (inl (absent, refl)) below in
    let (free, left) = Counts-remaining s' email now h (rw same (omega arith)) in
    (
      free,
      left ∙ ap (λ m. pos (m - length ts)) same,
      failure-told s' email t (rw same (omega arith))
          ∙ failed-told s' (entry_of s' email) t h
          ∙ ap (λ m. leb m (length ts + 1)) same,
    )

lock-is_locked :
    (s : LockoutService) (email : String) (now : Time) (e : Entry) (ends : Time)
    → e.locked_at + s.duration ≡ ends
    → entry_of s email ≡ some e
    → 0 < e.locked_at
    → 0 < s.max_attempts
    → is_locked s email now ≡ ltb now ends
      × (ends ≤ now → get_remaining_attempts s email now ≡ pos s.max_attempts)
unfolding is_locked get_remaining_attempts remaining_of locked_entry
lock-is_locked s email now e ends at found later enabled =
    rw found (rw (sym at) (ground arith, λ past. ground arith))

failure-lock_lem :
    (s : LockoutService) (email : String) (t now : Time)
    → 0 < t
    → (record_failure s email t).1 ≡ true
    → is_locked (record_failure s email t).0 email now ≡ ltb now (t + s.duration)
      × (t + s.duration ≤ now
          → get_remaining_attempts (record_failure s email t).0 email now ≡ pos s.max_attempts)
failure-lock_lem s email t now later told =
    let enabled = failure-enabled s email t told in
    let s' = (record_failure s email t).0 in
    let o = entry_of s email in
    let written = failed_entry s o t in
    let at = (failed-locks s o t (sym (failure-told s email t enabled) ∙ told)).0 in
    let lasts = failure-duration s email t in
    let max = failure-max s email t in
    let (locked, over) =
      lock-is_locked s' email now written.0 (t + s.duration) (rw at (rw lasts refl))
        (failure-entry s email t enabled) (rw at later) (rw max enabled) in
    (locked, λ past. over past ∙ ap pos max)

-- A failure after the zero time that reports a lock locks the account for `duration` from its own
-- time and no longer.
pub failure-locks :
    (s : LockoutService) (email : String) (t now : Time)
    → 0 < t
    → (record_failure s email t).1 ≡ true
    → is_locked (record_failure s email t).0 email now ≡ ltb now (t + s.duration)
failure-locks s email t now later told = (failure-lock_lem s email t now later told).0

-- Once the lock of a failure after the zero time has run out, all attempts are there again.
pub lock-expires :
    (s : LockoutService) (email : String) (t now : Time)
    → 0 < t
    → (record_failure s email t).1 ≡ true
    → t + s.duration ≤ now
    → get_remaining_attempts (record_failure s email t).0 email now ≡ pos s.max_attempts
lock-expires s email t now later told = (failure-lock_lem s email t now later told).1

-- A failure and a success on one address leave the entry of any address with another lockout key
-- as it is.
pub others-kept :
    (s : LockoutService) (email other : String) (t : Time)
    → lockout_key s email ≢ lockout_key s other
    → entry_of (record_failure s email t).0 other ≡ entry_of s other
      × entry_of (record_success s email) other ≡ entry_of s other
unfolding record_failure record_success entry_of lockout_key
others-kept s email other t apart =
    let key = s.to_lower (trim_space email) in
    let key' = s.to_lower (trim_space other) in
    let written = failed_entry s (get_at s.attempts key) t in
    (
      ground (arith, eq_iff key key', get_at-put_at s.attempts key key' written.0),
      ground (arith, eq_iff key key', get_at-delete_at s.attempts key key'),
    )

-- Where the lockout is enabled, a success leaves no entry for the address.
pub success-clears :
    (s : LockoutService) (email : String)
    → 0 < s.max_attempts
    → entry_of (record_success s email) email ≡ none
unfolding record_success entry_of lockout_key
success-clears s email enabled =
    let key = s.to_lower (trim_space email) in
    ground (arith, eq_refl key, get_at-delete_at s.attempts key key)
