-- ===== src/Maintenance.antt =====
-- internal/maintenance/maintenance.go: what is deleted when it is out of date.
pub mod Unexpired
use idpico.Prelude.{◌≡◌, ℕ, ◌-◌, String, Bool, true, false, List, [], ◌∷◌, ◌++◌, leb, if◌then◌else◌}
use idpico.Errors.{Error}
use idpico.Prelude.{Option, none, some}
use idpico.World.{World}
use idpico.Audit.{Event, record_event}
use idpico.Exec.{Exec, Done, pure, branch, clock, ◌>>=◌, ◌>>◌}
use idpico.Store.Sessions
use idpico.Store.AuthCodes
use idpico.Store.Tokens
use idpico.Store.Revocations
use idpico.Store.VerificationTokens
use idpico.Store.AuditEvents

-- All that is changed of the files is that of the signing keys, and the clock is as it was.
pub record OnlyKeys (w w' : World) : Type 0 where
  pub store : w'.store ≡ record w.store { signing_keys = w'.store.signing_keys }
  pub now : w'.now ≡ w.now

-- What the file takes of `crypto.KeyService`: `rotate_key` returns the identifier of the new key. The
-- service keeps its key pairs in signing_keys.json (internal/store/file/keys.go), and writes no other
-- file.
pub record KeyService : Type 0 where
  pub should_rotate : ℕ → Exec Bool
  pub rotate_key : ℕ → Exec String
  pub cleanup_expired_keys : Exec Done
  pub should_rotate_only : (max_age : ℕ) (w : World) → OnlyKeys w (should_rotate max_age w).1
  pub rotate_key_only : (grace : ℕ) (w : World) → OnlyKeys w (rotate_key grace w).1
  pub cleanup_only : (w : World) → OnlyKeys w (cleanup_expired_keys w).1

-- `audit_retention` is 0 where audit events are kept for good, and `audit` tells whether there is a
-- recorder.
pub record Runner : Type 0 where
  pub keys : Option KeyService
  pub key_max_age : ℕ
  pub key_grace : ℕ
  pub audit_retention : ℕ
  pub audit : Bool

-- `if err := task(); err != nil { errs = append(errs, err) }`
pub gather : Exec Done → List Error → Exec (List Error)
gather task errs = branch task (λ _. pure errs) (λ e. pure (errs ++ e ∷ []))

pub prune_audit : Runner → Exec Done
prune_audit r =
    if leb r.audit_retention 0
    then pure tt
    else (do now ← clock; AuditEvents.delete_before (now - r.audit_retention))

-- The event of a rotation.
abbrev key_rotated : String → Event
key_rotated kid = record {
  actor = none;
  actor_email = "maintenance";
  action = "key.rotated";
  target_type = "key";
  target_id = kid;
  detail = "scheduled rotation";
  ip = "";
}

pub rotate : Runner → KeyService → Exec Done
rotate r keys = do kid ← keys.rotate_key r.key_grace; record_event r.audit (key_rotated kid)

pub maintain_keys : Runner → KeyService → Exec Done
maintain_keys r keys = do
  due ← keys.should_rotate r.key_max_age
  if due then rotate r keys else pure tt
  keys.cleanup_expired_keys

abbrev pub keys_task : Runner → Option KeyService → List Error → Exec (List Error)
keys_task r none errs = pure errs
keys_task r (some keys) errs = gather (maintain_keys r keys) errs

-- The errors that `errors.Join` would join. A file store is no `Checkpointer`.
pub run_once : Runner → Exec (List Error)
run_once r = do
  a ← gather Sessions.delete_expired []
  b ← gather AuthCodes.delete_expired a
  c ← gather Tokens.delete_expired b
  d ← gather Revocations.delete_expired c
  e ← gather VerificationTokens.delete_expired d
  f ← gather (prune_audit r) e
  keys_task r r.keys f
