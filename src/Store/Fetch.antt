-- ===== src/Store/Fetch.antt =====
-- What a successful read or consumption of a stored record tells.
use idpico.Prelude.{
  arith, none, true, String, ◌≡◌, ap, Bool, false, List, some, ◌==◌, find, change_first,
  if◌then◌else◌,
}
use idpico.Errors.{Error, is_code, code_not_found}
use idpico.Store.Consents
use idpico.Store.Consents.{between}
use idpico.Domain.{Consent, User, Client, AuthCode, Token}
use idpico.World.{World}
use idpico.Exec.{Done, ok, err, raise, require, ◌>>=◌}
use idpico.Exec.Inversion.{Same, bind-ok, require-ok, unless-ok}
use idpico.Store.File.{
  File, load, save, load-ok, save-ok, Wrote, Wrote-after, users, clients, auth_codes, tokens,
  consents,
}
use idpico.Store.Users
use idpico.Store.Clients
use idpico.Store.AuthCodes
use idpico.Store.AuthCodes.{use_up}
use idpico.Store.Tokens
use idpico.Store.Tokens.{retire}

module _ {A : Type 0} where
  fetch-ok :
      (f : File (List A)) (message : String) (p : A → Bool) (e : Error) (w : World) {a : A}
      {w' : World}
      → (load f message >>= λ xs. require (find p xs) e) w ≡ (ok a, w')
      → (find p (f.get w.store) ≡ some a) × Same w w'
  fetch-ok f message p e w h =
      let (xs, w₁, l, r) = bind-ok _ _ w h in
      let (x, same) = load-ok f message w l in
      let (found, end) = require-ok _ e w₁ r in (rw x at found, rw (← end) at same)

  -- The shape of a consume-once operation: a stored record is found unused, and written as used.
  consume-ok :
      (f : File (List A)) (message : String) (p : A → Bool) (e e' : Error) (spent : A → Bool)
      (spend : A → A) (w : World) {u : Done} {w' : World}
      → (load f message >>= λ xs. require (find p xs) e >>= λ a.
            if spent a then raise e' else save f (change_first p spend xs))
          w
        ≡ (ok u, w')
      → (a : A) × (find p (f.get w.store) ≡ some a)
        × (spent a ≡ false)
        × Wrote f (change_first p spend (f.get w.store)) w w'
  consume-ok f message p e e' spent spend w h =
      let (xs, w₁, l, r) = bind-ok _ _ w h in
      let (x, same) = load-ok f message w l in
      let (a, w₂, q, g) = bind-ok _ _ w₁ r in
      let (found, end) = require-ok _ e w₁ q in
      let (fresh, written) = unless-ok (spent a) e' _ w₂ g in
      (
        a,
        rw x at found,
        fresh,
        Wrote-after f (ap (change_first p spend) x) (rw (← end) at same) (save-ok f _ w₂ written),
      )

pub client-fetched :
    (id : String) (w : World) {c : Client} {w' : World}
    → Clients.get_by_id id w ≡ (ok c, w')
    → (find (λ c. c.id == id) w.clients ≡ some c) × Same w w'
unfolding Clients.get_by_id
client-fetched id w h = fetch-ok clients _ _ _ w h

pub user-fetched :
    (id : String) (w : World) {u : User} {w' : World}
    → Users.get_by_id id w ≡ (ok u, w')
    → (find (λ u. u.id == id) w.users ≡ some u) × Same w w'
unfolding Users.get_by_id
user-fetched id w h = fetch-ok users _ _ _ w h

pub code-fetched :
    (code : String) (w : World) {c : AuthCode} {w' : World}
    → AuthCodes.get_by_code code w ≡ (ok c, w')
    → (find (λ c. c.code == code) w.auth_codes ≡ some c) × Same w w'
unfolding AuthCodes.get_by_code
code-fetched code w h = fetch-ok auth_codes _ _ _ w h

pub token-fetched :
    (id : String) (w : World) {t : Token} {w' : World}
    → Tokens.get_by_id id w ≡ (ok t, w')
    → (find (λ t. t.id == id) w.tokens ≡ some t) × Same w w'
unfolding Tokens.get_by_id
token-fetched id w h = fetch-ok tokens _ _ _ w h

-- A code is consumed only if it is stored and unused.
pub mark_used-ok :
    (code : String) (w : World) {u : Done} {w' : World}
    → AuthCodes.mark_used code w ≡ (ok u, w')
    → (ac : AuthCode) × (find (λ a. a.code == code) w.auth_codes ≡ some ac)
      × (ac.used ≡ false)
      × Wrote auth_codes (change_first (λ a. a.code == code) use_up w.auth_codes) w w'
unfolding AuthCodes.mark_used
mark_used-ok code w h = consume-ok auth_codes _ _ _ _ (λ a. a.used) use_up w h

-- So is a refresh token.
pub rotate-ok :
    (id : String) (w : World) {u : Done} {w' : World}
    → Tokens.rotate id w ≡ (ok u, w')
    → (t : Token) × (find (λ t. t.id == id) w.tokens ≡ some t)
      × (t.revoked ≡ false)
      × Wrote tokens (change_first (λ t. t.id == id) retire w.tokens) w w'
unfolding Tokens.rotate
rotate-ok id w h = consume-ok tokens _ _ _ _ (λ t. t.revoked) retire w h

pub consent-fetched :
    (user_id client_id : String) (w : World) {c : Consent} {w' : World}
    → Consents.get user_id client_id w ≡ (ok c, w')
    → (find (between user_id client_id) w.consents ≡ some c) × Same w w'
unfolding Consents.get
consent-fetched user_id client_id w h = fetch-ok consents _ _ _ w h

-- A consent that is reported as missing is not stored.
pub consent-missing :
    (user_id client_id : String) (w : World) {e : Error} {w' : World}
    → Consents.get user_id client_id w ≡ (err e, w')
    → is_code e code_not_found ≡ true
    → find (between user_id client_id) w.consents ≡ none
unfolding Consents.get load ◌>>=◌ is_code
consent-missing user_id client_id w {e} h missing = ground arith
