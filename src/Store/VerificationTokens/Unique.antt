-- ===== src/Store/VerificationTokens/Unique.antt =====
-- One token at most under a hash.
use idpico.Prelude.{
  ℕ, ◌+◌, ◌≤◌, String, Bool, true, false, ◌≡◌, refl, List, [], ◌∷◌, ◌++◌, ◌==◌, eq_iff, any, keep,
  change_first, Bool-cases, inl, inr, arith, if◌then◌else◌,
}
use idpico.Domain.{Time, VerificationToken}
use idpico.World.{World, Store}
use idpico.Exec.{Done, Exec, ◌>>=◌}
use idpico.Exec.Keeps.{Keeps, load-at, save-at}
use idpico.Store.File.{verification_tokens}
use idpico.Store.VerificationTokens.{create, mark_used, delete_by_user_id, delete_expired}

-- How many tokens are stored under a hash.
abbrev pub count_hash : String → List VerificationToken → ℕ
count_hash hash [] = 0
count_hash hash (t ∷ ts) = (if t.token_hash == hash then 1 else 0) + count_hash hash ts

abbrev IsUnique : String → Store → Time → Type 0
IsUnique hash x now = count_hash hash x.verification_tokens ≤ 1

count-keep :
    (hash : String) (p : VerificationToken → Bool) (ts : List VerificationToken)
    → count_hash hash (keep p ts) ≤ count_hash hash ts
count-keep hash p [] = omega arith
count-keep hash p (t ∷ ts) = ground (arith, count-keep hash p ts)

count-used :
    (hash h : String) (ts : List VerificationToken)
    → count_hash hash (change_first (λ t. t.token_hash == h) (λ t. record t { used = true }) ts)
      ≡ count_hash hash ts
count-used hash h [] = refl
count-used hash h (t ∷ ts) = ground (arith, count-used hash h ts)

count-absent :
    (hash : String) (ts : List VerificationToken)
    → any (λ t. t.token_hash == hash) ts ≡ false
    → count_hash hash ts ≡ 0
count-absent hash [] h = refl
count-absent hash (t ∷ ts) h = ground (arith, count-absent hash ts)

count-append :
    (hash : String) (ts : List VerificationToken) (t : VerificationToken)
    → count_hash hash (ts ++ t ∷ []) ≡ count_hash hash ts + (if t.token_hash == hash then 1 else 0)
count-append hash [] t = omega arith
count-append hash (x ∷ ts) t = rw (count-append hash ts t) (omega arith)

count-added :
    (hash : String) (ts : List VerificationToken) (t : VerificationToken)
    → any (λ x. x.token_hash == t.token_hash) ts ≡ false
    → count_hash hash ts ≤ 1
    → count_hash hash (ts ++ t ∷ []) ≤ 1
count-added hash ts t new one = elim (Bool-cases (t.token_hash == hash)) [
  | inr other ↦ rw (count-append hash ts t, other) (omega (arith, one))
  | inl same ↦
      let gone = count-absent t.token_hash ts new in
      let none_there : count_hash hash ts ≡ 0 = rw ((eq_iff t.token_hash hash).0 same) at gone in
      rw (count-append hash ts t, same, none_there) (omega arith)
]

module _ (hash : String) where
  create-IsUnique : (token : VerificationToken) → Keeps (IsUnique hash) (create token)
  unfolding create ◌>>=◌
  create-IsUnique token = load-at (IsUnique hash) verification_tokens _ _ (λ w h.
      elim (Bool-cases (any (λ t. t.token_hash == token.token_hash) w.verification_tokens)) [
        | inl there ↦ rw there h
        | inr new ↦ rw new (
            save-at (IsUnique hash) verification_tokens _ w h
              (count-added hash w.verification_tokens _ new h))
      ])

  mark_used-IsUnique : (h : String) → Keeps (IsUnique hash) (mark_used h)
  unfolding mark_used ◌>>=◌
  mark_used-IsUnique h = load-at (IsUnique hash) verification_tokens _ _ (λ w one.
      elim (Bool-cases (any (λ t. t.token_hash == h) w.verification_tokens)) [
        | inr missing ↦ rw missing one
        | inl there ↦ rw there (
            save-at (IsUnique hash) verification_tokens _ w one
              (rw (count-used hash h w.verification_tokens) one))
      ])

  user-IsUnique : (owner purpose : String) → Keeps (IsUnique hash) (delete_by_user_id owner purpose)
  unfolding delete_by_user_id ◌>>=◌
  user-IsUnique owner purpose = load-at (IsUnique hash) verification_tokens _ _ (λ w one.
      save-at (IsUnique hash) verification_tokens _ w one
        (omega (arith, one, count-keep hash _ w.verification_tokens)))

  expired-IsUnique : Keeps (IsUnique hash) delete_expired
  unfolding delete_expired ◌>>=◌
  expired-IsUnique = load-at (IsUnique hash) verification_tokens _ _ (λ w one.
      save-at (IsUnique hash) verification_tokens _ w one
        (omega (arith, one, count-keep hash _ w.verification_tokens)))

-- The operations that write the tokens.
pub data Operation : Type 0 where
  creating : VerificationToken → Operation
  marking : String → Operation
  deleting_of_user : String → String → Operation
  deleting_expired : Operation

abbrev perform : Operation → Exec Done
perform (creating token) = create token
perform (marking h) = mark_used h
perform (deleting_of_user owner purpose) = delete_by_user_id owner purpose
perform deleting_expired = delete_expired

perform-IsUnique : (hash : String) (op : Operation) → Keeps (IsUnique hash) (perform op)
perform-IsUnique hash (creating token) = create-IsUnique hash token
perform-IsUnique hash (marking h) = mark_used-IsUnique hash h
perform-IsUnique hash (deleting_of_user owner purpose) = user-IsUnique hash owner purpose
perform-IsUnique hash deleting_expired = expired-IsUnique hash

-- One operation after the other, each whether the one before succeeded or failed.
abbrev pub perform_all : List Operation → World → World
perform_all [] w = w
perform_all (op ∷ ops) w = perform_all ops (perform op w).1

-- One token at most is stored under each hash, after any operations on the repository in any order,
-- whatever file operations fail, if one at most is at the start.
pub perform_all-IsUnique :
    (hash : String) (ops : List Operation) (w : World)
    → count_hash hash w.verification_tokens ≤ 1
    → count_hash hash (perform_all ops w).verification_tokens ≤ 1
perform_all-IsUnique hash [] w h = h
perform_all-IsUnique hash (op ∷ ops) w h =
    perform_all-IsUnique hash ops (perform op w).1 ((perform-IsUnique hash op).at w h)
