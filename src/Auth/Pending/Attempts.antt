-- ===== src/Auth/Pending/Attempts.antt =====
-- How often a code may be tried for one password.
use idpico.Prelude.{
  ℕ, ◌+◌, ◌-◌, ◌≤◌, String, Bool, true, false, not, ◌||◌, ◌≡◌, refl, List, [], ◌∷◌, Option, none,
  some, ◌==◌, leb, keep, eq_iff, eq_refl, Bool-cases, inl, inr, arith, if◌then◌else◌,
}
use idpico.Prelude.Table.{Table, get_at, put_at, delete_at}
use idpico.Domain.{Time, User, PendingLogin, after}
use idpico.Auth.Pending
use idpico.Auth.Pending.{counted, pending_login_attempts, get_of, reserve_of, challenge_of, take_of}

abbrev left_of : PendingLogin → ℕ
left_of e = pending_login_attempts - e.attempts

-- The attempts that are left for a token.
left : String → Table PendingLogin → ℕ
left token [] = 0
left token (row ∷ rows) = (if row.0 == token then left_of row.1 else 0) + left token rows

left-none :
    (token : String) (rows : Table PendingLogin) → get_at rows token ≡ none → left token rows ≡ 0
unfolding left get_at
left-none token [] h = refl
left-none token (row ∷ rows) h = ground (arith, left-none token rows)

left-delete :
    (token key : String) (rows : Table PendingLogin)
    → left token (delete_at rows key) ≤ left token rows
unfolding left delete_at
left-delete token key [] = omega arith
left-delete token key (row ∷ rows) = ground (arith, left-delete token key rows)

left-keep :
    (token : String) (p : String × PendingLogin → Bool) (rows : Table PendingLogin)
    → left token (keep p rows) ≤ left token rows
unfolding left
left-keep token p [] = omega arith
left-keep token p (row ∷ rows) = ground (arith, left-keep token p rows)

left-put_other :
    (token key : String) (e : PendingLogin) (rows : Table PendingLogin)
    → (key == token) ≡ false
    → left token (put_at rows key e) ≡ left token rows
unfolding left put_at
left-put_other token key e [] other = ground arith
left-put_other token key e (row ∷ rows) other =
    ground (arith, left-put_other token key e rows, eq_iff row.0 key)

-- A write over the entry of the token.
left-put_same :
    (token : String) (e e' : PendingLogin) (rows : Table PendingLogin)
    → get_at rows token ≡ some e
    → left token (put_at rows token e') + left_of e ≡ left token rows + left_of e'
unfolding left put_at get_at
left-put_same token e e' [] h = absurd (ground arith)
left-put_same token e e' (row ∷ rows) h =
    ground (arith, left-put_same token e e' rows, eq_refl token)

-- The operations on the map, in whatever order the handlers make them.
pub data Step : Type 0 where
  add : String → User → Step
  get : String → Step
  reserve : String → Step
  challenge : String → String → Step
  take : String → Step
  remove : String → Step

-- A step at a time, the map after it, and whether it grants an attempt for the token.
abbrev granted : {A : Type 0} → Option A → ℕ
granted none = 0
granted (some a) = 1

unfoldable pub step_after : Step → Time → Table PendingLogin → Table PendingLogin
step_after (add key user) t rows = Pending.add key user t rows
step_after (get key) t rows = (Pending.get key t rows).1
step_after (reserve key) t rows = (Pending.reserve key t rows).1
step_after (challenge key text) t rows = (Pending.set_passkey_challenge key t text rows).1
step_after (take key) t rows = (Pending.take_passkey_challenge key rows).1
step_after (remove key) t rows = Pending.remove key rows

unfoldable pub grants : String → Step → Time → Table PendingLogin → ℕ
grants token (reserve key) t rows =
    if key == token then granted (Pending.reserve key t rows).0 else 0
grants token _ t rows = 0

-- The step does not enter the token anew.
abbrev enters : String → Step → Bool
enters token (add key user) = key == token
enters token _ = false

-- One of them at an entry that is there or not.
reserve_of-left :
    (token key : String) (t : Time) (rows : Table PendingLogin) (o : Option PendingLogin)
    → get_at rows key ≡ o
    → let r = reserve_of key t rows o in
      (if key == token then granted r.0 else 0) + left token r.1 ≤ left token rows
unfolding reserve_of
reserve_of-left token key t rows none found = ground (arith, left-delete token key rows)
reserve_of-left token key t rows (some e) found =
    elim (Bool-cases (after t e.expires || leb 5 e.attempts)) [
      | inl over ↦ rw over (ground (arith, left-delete token key rows))
      | inr fits ↦ rw fits (elim (Bool-cases (key == token)) [
        | inl same ↦
            let s = (eq_iff key token).0 same in
            rw s (
              ground (
                arith,
                eq_refl token,
                left-put_same token e (counted e) rows (rw s at found),
                fits,
              ))
        | inr other ↦ rw other (ground (arith, left-put_other token key (counted e) rows other))
      ])
    ]

-- An entry that is written over by one with as many attempts.
left-rewritten :
    (token key : String) (rows : Table PendingLogin) (e e' : PendingLogin)
    → get_at rows key ≡ some e
    → e'.attempts ≡ e.attempts
    → left token (put_at rows key e') ≤ left token rows
left-rewritten token key rows e e' found same = elim (Bool-cases (key == token)) [
  | inl k ↦
      let s = (eq_iff key token).0 k in
      rw s (omega (arith, left-put_same token e e' rows (rw s at found), same))
  | inr other ↦ omega (arith, left-put_other token key e' rows other)
]

get_of-left :
    (token key : String) (t : Time) (rows : Table PendingLogin) (o : Option PendingLogin)
    → left token (get_of key t rows o).1 ≤ left token rows
unfolding get_of
get_of-left token key t rows none = left-delete token key rows
get_of-left token key t rows (some e) = ground (arith, left-delete token key rows)

challenge_of-left :
    (token key text : String) (t : Time) (rows : Table PendingLogin) (o : Option PendingLogin)
    → get_at rows key ≡ o
    → left token (challenge_of key t text rows o).1 ≤ left token rows
unfolding challenge_of
challenge_of-left token key text t rows none found = omega arith
challenge_of-left token key text t rows (some e) found =
    ground (arith, left-rewritten token key rows e (record e { passkey = some text }) found refl)

take_of-left :
    (token key : String) (rows : Table PendingLogin) (o : Option PendingLogin)
    → get_at rows key ≡ o
    → left token (take_of key rows o).1 ≤ left token rows
unfolding take_of
take_of-left token key rows none found = omega arith
take_of-left token key rows (some e) found =
    left-rewritten token key rows e (record e { passkey = none }) found refl

step-left :
    (token : String) (s : Step) (t : Time) (rows : Table PendingLogin)
    → enters token s ≡ false
    → grants token s t rows + left token (step_after s t rows) ≤ left token rows
unfolding grants step_after Pending.add Pending.get Pending.reserve Pending.set_passkey_challenge
    Pending.take_passkey_challenge Pending.remove
step-left token (add key user) t rows other =
    let kept = left-keep token (λ e. not (after t e.1.expires)) rows in
    omega
      (arith, kept, left-put_other token key _ (keep (λ e. not (after t e.1.expires)) rows) other)
step-left token (get key) t rows other =
    omega (arith, get_of-left token key t rows (get_at rows key))
step-left token (reserve key) t rows other = reserve_of-left token key t rows (get_at rows key) refl
step-left token (challenge key text) t rows other =
    omega (arith, challenge_of-left token key text t rows (get_at rows key) refl)
step-left token (take key) t rows other =
    omega (arith, take_of-left token key rows (get_at rows key) refl)
step-left token (remove key) t rows other = omega (arith, left-delete token key rows)

-- A history of steps, each with its time.
unfoldable pub total_grants : String → List (Time × Step) → Table PendingLogin → ℕ
total_grants token [] rows = 0
total_grants token ((t, s) ∷ steps) rows =
    grants token s t rows + total_grants token steps (step_after s t rows)

abbrev never_enters : String → List (Time × Step) → Bool
never_enters token [] = true
never_enters token ((t, s) ∷ steps) = if enters token s then false else never_enters token steps

total_grants-le-left :
    (token : String) (steps : List (Time × Step)) (rows : Table PendingLogin)
    → never_enters token steps ≡ true
    → total_grants token steps rows ≤ left token rows
unfolding total_grants
total_grants-le-left token [] rows h = omega arith
total_grants-le-left token ((t, s) ∷ steps) rows h = elim (Bool-cases (enters token s)) [
  | inl e ↦ absurd (ground (arith, rw e at h))
  | inr e ↦ omega (
    arith,
    step-left token s t rows e,
    total_grants-le-left token steps (step_after s t rows) (rw e at h),
  )
]

left-added :
    (token : String) (e : PendingLogin) (rows : Table PendingLogin)
    → left token (put_at rows token e) ≤ left token rows + left_of e
unfolding left put_at
left-added token e [] = ground (arith, eq_refl token)
left-added token e (row ∷ rows) =
    ground (arith, left-added token e rows, eq_iff row.0 token, eq_refl token)

-- After a password was accepted and its login entered under a token that was not there, at most five
-- attempts are granted for the token, whatever other logins, challenges, lookups and attempts follow
-- in whatever order and at whatever times, as long as the token is not entered again.
pub total_grants-le-five :
    (token : String) (user : User) (t : Time) (rows : Table PendingLogin)
    (steps : List (Time × Step))
    → get_at rows token ≡ none
    → never_enters token steps ≡ true
    → total_grants token steps (Pending.add token user t rows) ≤ 5
unfolding Pending.add
total_grants-le-five token user t rows steps new kept =
    let live = keep (λ (e : String × PendingLogin). not (after t e.1.expires)) rows in
    omega (
      arith,
      total_grants-le-left token steps (Pending.add token user t rows) kept,
      left-added token
          (record {
            user_id = user.id;
            email = user.email;
            expires = t + 300_000_000_000;
            attempts = 0;
            passkey = none;
          })
          live,
      left-keep token (λ (e : String × PendingLogin). not (after t e.1.expires)) rows,
      left-none token rows new,
    )
