-- ===== src/Store/File.antt =====
-- `readFile` and `writeFile` of internal/store/file/file.go. A collection is read whole, changed in
-- memory and written whole; a failed write is taken to leave the file as it was.
use idpico.Prelude.{◌∙◌, String, ◌≡◌, arith}
use idpico.Errors.{internal}
use idpico.World.{Store, World, GroupsData}
use idpico.Domain.{
  User, Client, Session, AuthCode, Token, Revocation, Consent, VerificationToken, Passkey,
  SigningKey, AuditEvent,
}
use idpico.Prelude.{List}
use idpico.Exec.{◌>>=◌, Exec, Done, ok, rethrow, attempt, gets, ◌>>◌}
use idpico.Exec.Inversion.{Same}

-- One of the files.
pub record File (A : Type 0) : Type 0 where
  pub get : Store → A
  pub set : Store → A → Store

abbrev pub users : File (List User)
users = record { get = λ s. s.users; set = λ s xs. record s { users = xs } }

abbrev pub clients : File (List Client)
clients = record { get = λ s. s.clients; set = λ s xs. record s { clients = xs } }

abbrev pub sessions : File (List Session)
sessions = record { get = λ s. s.sessions; set = λ s xs. record s { sessions = xs } }

abbrev pub auth_codes : File (List AuthCode)
auth_codes = record { get = λ s. s.auth_codes; set = λ s xs. record s { auth_codes = xs } }

abbrev pub tokens : File (List Token)
tokens = record { get = λ s. s.tokens; set = λ s xs. record s { tokens = xs } }

abbrev pub revocations : File (List Revocation)
revocations = record { get = λ s. s.revocations; set = λ s xs. record s { revocations = xs } }

abbrev pub consents : File (List Consent)
consents = record { get = λ s. s.consents; set = λ s xs. record s { consents = xs } }

abbrev pub verification_tokens : File (List VerificationToken)
verification_tokens = record {
  get = λ s. s.verification_tokens;
  set = λ s xs. record s { verification_tokens = xs };
}

abbrev pub groups : File GroupsData
groups = record { get = λ s. s.groups_data; set = λ s xs. record s { groups_data = xs } }

abbrev pub passkeys : File (List Passkey)
passkeys = record { get = λ s. s.passkeys; set = λ s xs. record s { passkeys = xs } }

abbrev pub audit_events : File (List AuditEvent)
audit_events = record { get = λ s. s.audit_events; set = λ s xs. record s { audit_events = xs } }

abbrev pub signing_keys : File (List SigningKey)
signing_keys = record { get = λ s. s.signing_keys; set = λ s xs. record s { signing_keys = xs } }

-- `load`, with the error that its callers make of a failure.
unfoldable pub load : {A : Type 0} → File A → String → Exec A
load f message = do rethrow (internal message) attempt; gets (λ w. f.get w.store)

unfoldable pub save : {A : Type 0} → File A → A → Exec Done
save f x = do attempt; λ w. (ok tt, record w { store = f.set w.store x })

pub load-ok :
    {A : Type 0} (f : File A) (message : String) (w : World) {x : A} {w' : World}
    → load f message w ≡ (ok x, w')
    → (x ≡ f.get w.store) × Same w w'
unfolding load ◌>>=◌
load-ok f message w h = ground arith

-- A successful write stores the collection and leaves the rest.
pub record Wrote {A : Type 0} (f : File A) (x : A) (w w' : World) : Type 0 where
  pub store : w'.store ≡ f.set w.store x
  pub now : w'.now ≡ w.now
  pub host : w'.host ≡ w.host

pub save-ok :
    {A : Type 0} (f : File A) (x : A) (w : World) {u : Done} {w' : World}
    → save f x w ≡ (ok u, w')
    → Wrote f x w w'
unfolding save ◌>>=◌
save-ok f x w h = ground arith

pub Wrote-after :
    {A : Type 0} (f : File A) {x y : A} {u v w : World}
    → x ≡ y
    → Same u v
    → Wrote f x v w
    → Wrote f y u w
Wrote-after f e s r = record {
  store = rw (← e, ← s.store) r.store;
  now = r.now ∙ s.now;
  host = r.host ∙ s.host;
}
