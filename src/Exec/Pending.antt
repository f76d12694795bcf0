-- ===== src/Exec/Pending.antt =====
-- Operations that leave the pending logins as they are: one rule for each way to build an operation.
use idpico.Prelude.{◌≡◌, refl, ◌∙◌, Bool, true, false, arith, if◌then◌else◌}
use idpico.Errors.{Error}
use idpico.Domain.{Time, Cookie}
use idpico.World.{World, Memory}
use idpico.Exec.{
  String, Result, ok, err, Exec, pure, raise, rethrow, ignore, resume, clock, new_uuid, random_text,
  modify, set_cookie, ◌>>=◌,
}
use idpico.Store.File.{File, load, save}

-- Whether `m` succeeds or fails, the pending logins are those from before.
pub record KeepsPending {A : Type 0} (m : Exec A) : Type 0 where
  pub at : (w : World) → (m w).1.memory.pending ≡ w.memory.pending

module _ {A : Type 0} where
  pub pending-pure : (value : A) → KeepsPending (pure value)
  unfolding pure
  pending-pure value = record { at = λ w. refl }

  pub pending-raise : (e : Error) → KeepsPending (raise {A = A} e)
  unfolding raise
  pending-raise e = record { at = λ w. refl }

  pub pending-if :
      (test : Bool) (m n : Exec A)
      → KeepsPending m
      → KeepsPending n
      → KeepsPending (if test then m else n)
  pending-if true m n on off = on
  pending-if false m n on off = off

  pub pending-rethrow :
      (f : Error → Error) (m : Exec A) → KeepsPending m → KeepsPending (rethrow f m)
  unfolding rethrow
  pending-rethrow f m k = record { at = λ w. ground (arith, k.at w) }

  pub pending-ignore : (m : Exec A) → KeepsPending m → KeepsPending (ignore m)
  unfolding ignore
  pending-ignore m k = record { at = λ w. k.at w }

  pub pending-load : (f : File A) (message : String) → KeepsPending (load f message)
  unfolding load ◌>>=◌
  pending-load f message = record { at = λ w. ground arith }

  pub pending-save : (f : File A) (x : A) → KeepsPending (save f x)
  unfolding save ◌>>=◌
  pending-save f x = record { at = λ w. ground arith }

  pub pending-modify :
      (f : Memory → Time → A × Memory)
      → ((m : Memory) (t : Time) → (f m t).1.pending ≡ m.pending)
      → KeepsPending (modify f)
  unfolding modify
  pending-modify f k = record { at = λ w. k w.memory w.now }

pub pending-uuid : KeepsPending new_uuid
unfolding new_uuid
pending-uuid = record { at = λ w. refl }

pub pending-random : KeepsPending random_text
unfolding random_text
pending-random = record { at = λ w. refl }

pub pending-set_cookie : (c : Cookie) → KeepsPending (set_cookie c)
unfolding set_cookie
pending-set_cookie c = record { at = λ w. refl }

pub pending-clock : KeepsPending clock
unfolding clock
pending-clock = record { at = λ w. refl }

module _ {A B : Type 0} where
  pub pending-bind :
      (first : Exec A) (rest : A → Exec B)
      → KeepsPending first
      → ((x : A) → KeepsPending (rest x))
      → KeepsPending (first >>= rest)
  unfolding ◌>>=◌
  pending-bind first rest begins ends = record { at = λ w. then_at (first w) ∙ begins.at w }
    where
      then_at : (q : Result A × World) → (resume rest q).1.memory.pending ≡ q.1.memory.pending
      then_at (ok x, v) = (ends x).at v
      then_at (err e, v) = refl

pub ruleset pending_rules = (
  pending-pure, pending-raise, pending-if, pending-rethrow, pending-ignore, pending-load,
  pending-save, pending-modify, pending-uuid, pending-random, pending-set_cookie, pending-clock,
  pending-bind,
)
