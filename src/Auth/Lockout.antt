-- ===== src/Auth/Lockout.antt =====
-- internal/auth/lockout.go: failed sign-ins are counted by address, and lock the account.
pub mod Failure
pub mod Locking
use idpico.Prelude.{
  ℕ, ◌+◌, ◌-◌, String, Bool, true, false, not, ◌&&◌, Option, none, some, ltb, leb, trim_space,
  if◌then◌else◌,
}
use idpico.Prelude.Int.{ℤ, pos, negsuc}
use idpico.Prelude.Table.{Table, get_at, put_at, delete_at}
use idpico.Domain.{Time}

-- `locked_at` is 0, the zero time, while the account is not locked.
pub record Entry : Type 0 where
  pub count : ℕ
  pub locked_at : Time

-- `max_attempts` is 0 where the lockout is disabled. `to_lower` is `strings.ToLower`.
pub record LockoutService : Type 0 where
  pub max_attempts : ℕ
  pub duration : ℕ
  pub attempts : Table Entry
  pub to_lower : String → String

unfoldable pub lockout_key : LockoutService → String → String
lockout_key s email = s.to_lower (trim_space email)

unfoldable pub entry_of : LockoutService → String → Option Entry
entry_of s email = get_at s.attempts (lockout_key s email)

-- `time.Since(entry.lockedAt) < s.duration`
abbrev within : LockoutService → Entry → Time → Bool
within s entry now = ltb now (entry.locked_at + s.duration)

-- `!entry.lockedAt.IsZero()`
abbrev has_lock : Entry → Bool
has_lock entry = ltb 0 entry.locked_at

locked_entry : LockoutService → Option Entry → Time → Bool
locked_entry s none now = false
locked_entry s (some entry) now = has_lock entry && within s entry now

unfoldable pub is_locked : LockoutService → String → Time → Bool
unfolding locked_entry
is_locked s email now =
    if leb s.max_attempts 0 then false else locked_entry s (entry_of s email) now

-- The entry that a failure is counted on: a new one, or one whose lock has run out, starts from 0.
counted : LockoutService → Option Entry → Time → ℕ
counted s none now = 0
counted s (some entry) now = if has_lock entry && not (within s entry now) then 0 else entry.count

kept_lock : LockoutService → Option Entry → Time → Time
kept_lock s none now = 0
kept_lock s (some entry) now =
    if has_lock entry && not (within s entry now) then 0 else entry.locked_at

pub failed_entry : LockoutService → Option Entry → Time → Entry × Bool
unfolding counted kept_lock
failed_entry s o now =
    let count = counted s o now + 1 in
    if leb s.max_attempts count
    then (record { count = count; locked_at = now }, true)
    else (record { count = count; locked_at = kept_lock s o now }, false)

unfoldable pub record_failure : LockoutService → String → Time → LockoutService × Bool
unfolding failed_entry
record_failure s email now =
    if leb s.max_attempts 0
    then (s, false)
    else let (entry, locked) = failed_entry s (entry_of s email) now in
      (record s { attempts = put_at s.attempts (lockout_key s email) entry }, locked)

unfoldable pub record_success : LockoutService → String → LockoutService
record_success s email =
    if leb s.max_attempts 0
    then s
    else record s { attempts = delete_at s.attempts (lockout_key s email) }

remaining_of : LockoutService → Option Entry → Time → ℕ
remaining_of s none now = s.max_attempts
remaining_of s (some entry) now =
    if has_lock entry && not (within s entry now)
    then s.max_attempts
    else s.max_attempts - entry.count

-- -1 where the lockout is disabled.
pub get_remaining_attempts : LockoutService → String → Time → ℤ
unfolding remaining_of
get_remaining_attempts s email now =
    if leb s.max_attempts 0 then negsuc 0 else pos (remaining_of s (entry_of s email) now)

lock_left : LockoutService → Option Entry → Time → ℕ
lock_left s none now = 0
lock_left s (some entry) now = if has_lock entry then entry.locked_at + s.duration - now else 0

pub get_lockout_remaining : LockoutService → String → Time → ℕ
unfolding lock_left
get_lockout_remaining s email now =
    if leb s.max_attempts 0 then 0 else lock_left s (entry_of s email) now
