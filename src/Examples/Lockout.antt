-- ===== src/Examples/Lockout.antt =====
-- Failed sign-ins against a lockout after three failures for a minute.
use idpico.Prelude.{
  none, eq_iff, ◌+◌, ◌≤◌, ◌≡◌, ◌≢◌, refl, true, false, [], ◌∷◌, none, ltb, arith, trim_space,
}
use idpico.Prelude.Int.{pos}
use idpico.Prelude.Table.{get_at}
use idpico.Auth.Lockout.{
  record_success, LockoutService, entry_of, lockout_key, is_locked, record_failure, record_success,
  get_remaining_attempts, get_lockout_remaining,
}
use idpico.Auth.Lockout.Locking.{
  success-clears, failures, failures-count, failure-locks, lock-expires, others-kept,
  locked_iff_remaining,
}

abbrev fresh : LockoutService
fresh = record { max_attempts = 3; duration = 60; attempts = []; to_lower = λ a. a }

abbrev twice : LockoutService
twice = failures fresh "a@b" (5 ∷ 6 ∷ [])

locked_iff_remaining_example : is_locked twice "a@b" 8 ≡ ltb 0 (get_lockout_remaining twice "a@b" 8)
locked_iff_remaining_example = locked_iff_remaining twice "a@b" 8

nothing_counted : entry_of fresh "a@b" ≡ none
unfolding entry_of get_at
nothing_counted = refl

failures-count_example :
    is_locked (failures fresh "a@b" (5 ∷ 6 ∷ [])) "a@b" 8 ≡ false
    × get_remaining_attempts (failures fresh "a@b" (5 ∷ 6 ∷ [])) "a@b" 8 ≡ pos 1
    × (record_failure (failures fresh "a@b" (5 ∷ 6 ∷ [])) "a@b" 7).1 ≡ true
failures-count_example = failures-count fresh "a@b" (5 ∷ 6 ∷ []) 7 8 nothing_counted (omega arith)

third_locks : (record_failure twice "a@b" 7).1 ≡ true
third_locks = (failures-count fresh "a@b" (5 ∷ 6 ∷ []) 7 8 nothing_counted (omega arith)).2

failure-locks_example :
    is_locked (record_failure twice "a@b" 7).0 "a@b" 66 ≡ ltb 66 (7 + twice.duration)
failure-locks_example = failure-locks twice "a@b" 7 66 (omega arith) third_locks

lasted : 7 + twice.duration ≤ 67
unfolding failures record_failure
lasted = omega arith

lock-expires_example :
    get_remaining_attempts (record_failure twice "a@b" 7).0 "a@b" 67 ≡ pos twice.max_attempts
lock-expires_example = lock-expires twice "a@b" 7 67 (omega arith) third_locks lasted

apart : lockout_key twice "a@b" ≢ lockout_key twice "c@d"
unfolding lockout_key trim_space failures record_failure
apart = λ e.
    let same : "a@b" ≡ "c@d" = e in
    let told : false ≡ true = (eq_iff "a@b" "c@d").1 same in ground arith

others-kept_example :
    entry_of (record_failure twice "a@b" 7).0 "c@d" ≡ entry_of twice "c@d"
    × entry_of (record_success twice "a@b") "c@d" ≡ entry_of twice "c@d"
others-kept_example = others-kept twice "a@b" "c@d" 7 apart

success-clears_example : entry_of (record_success fresh "a@b") "a@b" ≡ none
success-clears_example = success-clears fresh "a@b" (omega arith)
