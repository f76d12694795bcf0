-- ===== src/Auth/Account/Reset.antt =====
-- What a password reset asks for and what it leaves.
use idpico.Prelude.{
  eq_iff, find-passes, ◌∙◌, ℕ, ◌≤◌, String, Bool, true, ◌≡◌, ap, ◌∙◌, sym, subst, some, ◌==◌, find,
  find-passes, leb, length, codes, eq_iff, arith,
}
use idpico.Domain.{Time, User, VerificationToken}
use idpico.World.{Store, World}
use idpico.Exec.{Done, Result, ok, ignore, ◌>>◌}
use idpico.Exec.Inversion.{Same, bind-ok, check-ok, pure-ok, require-ok, rethrow-ok}
use idpico.Exec.Keeps.{Keeps, keeps_rules, Keeps-save, load-at, save-at}
use idpico.Store.File.{verification_tokens}
use idpico.Store.Fetch.{user-fetched}
use idpico.Store.Users
use idpico.Store.Sessions
use idpico.Store.Tokens
use idpico.Store.Revocations
use idpico.Store.VerificationTokens
use idpico.Store.VerificationTokens.Unique.{count_hash}
use idpico.Audit.{record_event, Event}
use idpico.Auth.Keeps.{record_event-Keeps}
use idpico.Auth.Password.{new_salt, hash_password}
use idpico.Auth.Service.SecondFactor.{store_user}
use idpico.Auth.Service.SecondFactor.Consumed.{StoredUser, store_user-ok}
use idpico.Auth.Account.{
  pure, AccountService, validate_password, min_password_length, purpose_password_reset,
  consume_token, set_password, reset_password,
}
use idpico.Auth.Account.Links.{
  Opens, all_used, used-keep, used-marked, consume_token-ok, consume_token-used,
}

-- The user is stored as `user`, and every token under the hash is used.
abbrev IsReset : String → String → User → Store → Time → Type 0
IsReset id hash user x t =
    (find (λ (u : User). u.id == id) x.users ≡ some user)
    × (all_used hash x.verification_tokens ≡ true)

module _ (id hash : String) (user : User) where
  sessions-IsReset :
      (owner : String) → Keeps (IsReset id hash user) (Sessions.delete_by_user_id owner)
  unfolding Sessions.delete_by_user_id
  sessions-IsReset owner = search (keeps_rules, Keeps-save)

  cut-IsReset :
      (kind key : String) (t : Time)
      → Keeps (IsReset id hash user) (Revocations.revoke_before kind key t)
  unfolding Revocations.revoke_before Revocations.upsert
  cut-IsReset kind key t = search (keeps_rules, Keeps-save)

  tokens-IsReset : (owner : String) → Keeps (IsReset id hash user) (Tokens.revoke_by_user_id owner)
  unfolding Tokens.revoke_by_user_id
  tokens-IsReset owner = search (keeps_rules, Keeps-save, cut-IsReset) depth 9

  links-IsReset :
      (owner purpose : String)
      → Keeps (IsReset id hash user) (VerificationTokens.delete_by_user_id owner purpose)
  unfolding VerificationTokens.delete_by_user_id
  links-IsReset owner purpose = load-at (IsReset id hash user) verification_tokens _ _ (λ w h.
      save-at (IsReset id hash user) verification_tokens _ w h
        (h.0, used-keep hash _ w.verification_tokens h.1))

  event-IsReset :
      (enabled : Bool) (e : Event) → Keeps (IsReset id hash user) (record_event enabled e)
  event-IsReset enabled e = record_event-Keeps {P = IsReset id hash user} (λ x t y h. h) enabled e

  rest-IsReset :
      (owner purpose : String)
      → Keeps (IsReset id hash user) (
          ignore (Sessions.delete_by_user_id owner)
          >> (ignore (Tokens.revoke_by_user_id owner)
              >> (ignore (VerificationTokens.delete_by_user_id owner purpose) >> pure user)))
  rest-IsReset owner purpose =
      search (keeps_rules, sessions-IsReset, tokens-IsReset, links-IsReset) depth 12

salt-Same : (w : World) {n : ℕ} {w' : World} → new_salt w ≡ (ok n, w') → Same w w'
unfolding new_salt
salt-Same w h = record { store = ground arith; now = ground arith; host = ground arith }

hash_password-ok :
    (s : AccountService) (password : String) (w : World) {hash : String} {w' : World}
    → hash_password s.crypto password w ≡ (ok hash, w')
    → (n : ℕ) × (s.crypto.hash_password n password ≡ some hash) × Same w w'
unfolding hash_password
hash_password-ok s password w h =
    let (n, w₁, q, h₁) = bind-ok _ _ w h in
    let (hashed, e) = require-ok _ _ w₁ h₁ in (n, hashed, rw e (salt-Same w q))

store_user-Keeps :
    (hash message : String) (user : User)
    → Keeps (λ x t. all_used hash x.verification_tokens ≡ true) (store_user message user)
unfolding store_user Users.update
store_user-Keeps hash message user = search (keeps_rules, Keeps-save) depth 12

-- The new password is stored as a hash, and nothing else of the user changes but the time.
pub record HasPassword (s : AccountService) (old : User) (password : String) (now : Time)
    (user : User) (w : World) : Type 0 where
  pub long : leb min_password_length (length (codes password)) ≡ true
  pub salt : ℕ
  pub hash : String
  pub hashed : s.crypto.hash_password salt password ≡ some hash
  pub stored : StoredUser old.id w user
  pub changed : user ≡ record old { password_hash = hash; updated_at = now }

validate_password-ok :
    (password : String) (w : World) {u : Done} {w' : World}
    → validate_password password w ≡ (ok u, w')
    → (leb min_password_length (length (codes password)) ≡ true) × (w' ≡ w)
unfolding validate_password
validate_password-ok password w h = check-ok _ _ w h

set_password-ok :
    (s : AccountService) (user : User) (password hash : String) (w : World) {old stored : User}
    {w' : World}
    → StoredUser user.id w old
    → all_used hash w.verification_tokens ≡ true
    → set_password s user password w ≡ (ok stored, w')
    → HasPassword s user password w.now stored w' × (all_used hash w'.verification_tokens ≡ true)
unfolding set_password
set_password-ok s user password hash w {old} {stored} {w'} found used h =
    let (_, w₁, v, h₁) = bind-ok _ _ w h in
    let (long, e₁) = validate_password-ok password w v in
    let (text, w₂, q, h₂) = bind-ok _ _ w₁ h₁ in
    let (n, hashed, same) = hash_password-ok s password w₁ (rethrow-ok _ _ w₁ q) in
    let (x, w₃, k, h₃) = bind-ok _ _ w₂ h₂ in
    let here : StoredUser user.id w₂ old = rw (same.store, e₁) found in
    let (e, kept) = store_user-ok _ (record user { password_hash = text }) w₂ here k in
    let used₂ : all_used hash w₂.verification_tokens ≡ true = rw (same.store, e₁) used in
    let used₃ =
      subst (λ (y : Result User × World). all_used hash y.1.verification_tokens ≡ true) k
        ((store_user-Keeps hash _ (record user { password_hash = text })).at w₂ used₂) in
    let after =
      subst (λ (y : Result User × World). IsReset user.id hash x y.1.store y.1.now) h₃
        ((rest-IsReset user.id hash x user.id purpose_password_reset).at w₃ (kept, used₃)) in
    let same_user = last w₃ h₃ in
    let stamp : w₂.now ≡ w.now = same.now ∙ ap (λ (y : World). y.now) e₁ in
    let result : HasPassword s user password w.now x w' = record {
      long = long;
      salt = n;
      hash = text;
      hashed = hashed;
      stored = after.0;
      changed = e ∙ ap (λ (t : Time). record user { password_hash = text; updated_at = t }) stamp;
    } in
    (rw same_user result, after.1)
  where
    last :
        {x : User} (v : World)
        → (ignore (Sessions.delete_by_user_id user.id)
              >> (ignore (Tokens.revoke_by_user_id user.id)
                  >> (ignore (VerificationTokens.delete_by_user_id user.id purpose_password_reset)
                      >> pure x)))
            v
          ≡ (ok stored, w')
        → stored ≡ x
    last v h =
        let (_, v₁, _, h₁) = bind-ok _ _ v h in
        let (_, v₂, _, h₂) = bind-ok _ _ v₁ h₁ in
        let (_, v₃, _, h₃) = bind-ok _ _ v₂ h₂ in (pure-ok _ v₃ h₃).0

-- A password reset that went through.
pub record Reset (s : AccountService) (token password : String) (w : World) (user : User)
    (w' : World) : Type 0 where
  pub link : VerificationToken
  pub opened : Opens s token purpose_password_reset w link
  pub old : User
  pub owner : StoredUser link.user_id w old
  pub changed : HasPassword s old password w.now user w'
  pub spent : all_used (s.hash_token token) w'.verification_tokens ≡ true

-- Where one token at most is stored under the hash of a link, a password is reset with the link only if
-- it is stored, unused, in time and made for this, to a password of eight characters or more, for the
-- stored user of the link; and then the stored user is the same but for a hash of the new password and
-- the time of the change, and every token that is still stored under the hash is used.
pub reset_password-ok :
    (s : AccountService) (token password : String) (w : World) {user : User} {w' : World}
    → count_hash (s.hash_token token) w.verification_tokens ≤ 1
    → reset_password s token password w ≡ (ok user, w')
    → Reset s token password w user w'
unfolding reset_password
reset_password-ok s token password w {user} {w'} single h =
    let hash = s.hash_token token in
    let (_, w₁, v, h₁) = bind-ok _ _ w h in
    let (_, e₁) = validate_password-ok password w v in
    let (vt, w₂, c, h₂) = bind-ok _ _ w₁ h₁ in
    let (opened, wrote) = consume_token-ok s token purpose_password_reset w₁ c in
    let (old, w₃, f, h₃) = bind-ok _ _ w₂ h₂ in
    let (found, same) = user-fetched vt.user_id w₂ (rethrow-ok _ _ w₂ f) in
    let (x, w₄, k, h₄) = bind-ok _ _ w₃ h₃ in
    let id =
      (eq_iff old.id vt.user_id).0
        (find-passes (λ (u : User). u.id == vt.user_id) w₂.users found) in
    let users₂ : w₂.users ≡ w.users =
      ap (λ (y : Store). y.users) wrote.store ∙ ap (λ (y : World). y.users) e₁ in
    let here : StoredUser old.id w₃ old = rw (id, same.store) found in
    let marked : all_used hash w₂.verification_tokens ≡ true =
      ap (λ (y : Store). all_used hash y.verification_tokens) wrote.store
      ∙ used-marked hash w₁.verification_tokens (rw e₁ single) in
    let (changed, used) = set_password-ok s old password hash w₃ here (rw same.store marked) k in
    let (_, w₅, g, h₅) = bind-ok _ _ w₄ h₄ in
    let (e, end) = pure-ok x w₅ h₅ in
    let after =
      subst (λ (y : Result Done × World). IsReset old.id hash x y.1.store y.1.now) g
        ((event-IsReset old.id hash x s.audit _).at w₄ (changed.stored, used)) in
    let stamp : w₃.now ≡ w.now = same.now ∙ (wrote.now ∙ ap (λ (y : World). y.now) e₁) in
    let result : Reset s token password w x w₅ = record {
      link = vt;
      opened = rw e₁ at opened;
      old = old;
      owner = rw users₂ at found;
      changed = record {
        long = changed.long;
        salt = changed.salt;
        hash = changed.hash;
        hashed = changed.hashed;
        stored = after.0;
        changed =
            changed.changed
            ∙ ap (λ (t : Time). record old { password_hash = changed.hash; updated_at = t }) stamp;
      };
      spent = after.1;
    } in
    subst (λ (y : User). Reset s token password w y w') (sym e)
      (subst (λ (y : World). Reset s token password w x y) (sym end) result)

-- A link resets a password once: after a reset that went through, where one token at most was stored
-- under the hash of the link, no link with the same token is taken again, for a reset or for anything
-- else, at whatever time and whatever file operations fail, while the verification tokens are as the
-- reset left them.
pub reset_password-once :
    (s : AccountService) (token password purpose : String) (w v : World) {user : User} {w' : World}
    {vt : VerificationToken} {v' : World}
    → count_hash (s.hash_token token) w.verification_tokens ≤ 1
    → reset_password s token password w ≡ (ok user, w')
    → v.verification_tokens ≡ w'.verification_tokens
    → ¬ (consume_token s token purpose v ≡ (ok vt, v'))
reset_password-once s token password purpose w v {w' = w'} single h same = λ again.
    consume_token-used s token purpose v
      (rw same (reset_password-ok s token password w single h).spent) again
