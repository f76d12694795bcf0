-- ===== src/Auth/Service/SecondFactor/Consumed.antt =====
-- What the second factor takes, and what it leaves stored.
use idpico.Prelude.{
  refl, sym, eq_iff, subst, arith, ◌⊎◌, any, String, ◌≡◌, ap, ◌∙◌, some, ◌==◌, find,
  find-change_first, change_first, eq_refl, Bool-cases, inl, inr,
}
use idpico.Domain.{Time, User}
use idpico.World.{Store, World}
use idpico.Exec.{Done, ok}
use idpico.Exec.Inversion.{raise-ok, bind-ok, clock-ok, pure-ok, rethrow-ok}
use idpico.Store.File.{users, load-ok, save-ok}
use idpico.Store.Users
use idpico.Exec.Keeps.{Keeps}
use idpico.Store.Fetch.{user-fetched}
use idpico.Auth.Totp.Accepted.{Matches, verify_totp-some}
use idpico.Prelude.{none, some, inl, inr, find-passes, trim_space, ◌⊎◌, subst}
use idpico.Auth.Keeps.{record_event-Keeps}
use idpico.Auth.Session.{HttpRequest}
use idpico.Auth.Service.SecondFactor.{
  event_of, record_event, codes_left, Result, verify_totp, Bool, trim_space, true,
  use_recovery_code, step_of, totp_enabled, Option, List, HttpRequest, ℤ, AuthService,
  consume_second_factor, spend_step, spend_recovery_code, store_user,
}

-- The stored user of the identifier.
abbrev pub StoredUser : String → World → User → Type 0
StoredUser id w user = find (λ (u : User). u.id == id) w.users ≡ some user

update-ok :
    (user : User) (w : World) {u : Done} {w' : World}
    → Users.update user w ≡ (ok u, w')
    → (w'.users
        ≡ change_first (λ x. x.id == user.id) (λ _. record user { updated_at = w.now }) w.users)
      × (w'.now ≡ w.now)
unfolding Users.update
update-ok user w h =
    let (xs, w₁, l, h₁) = bind-ok _ _ w h in
    let (x, same) = load-ok users _ w l in
    let (now, w₂, c, h₂) = bind-ok _ _ w₁ h₁ in
    let (n, e) = clock-ok w₁ c in
    elim (Bool-cases (any (λ (y : User). y.id == user.id) xs)) [
      | inr missing ↦ absurd (raise-ok _ w₂ (rw missing at h₂))
      | inl there ↦
          let wrote = save-ok users _ w₂ (rw there at h₂) in
          let stamp = n ∙ same.now in
          (
            ap (λ (s : Store). s.users) wrote.store
                ∙ (ap
                      (change_first (λ (y : User). y.id == user.id)
                        (λ _. record user { updated_at = now }))
                      x
                    ∙ ap
                        (λ (t : Time).
                          change_first (λ (y : User). y.id == user.id)
                            (λ _. record user { updated_at = t }) w.users)
                        stamp),
            wrote.now ∙ (ap (λ (v : World). v.now) e ∙ same.now),
          )
    ]

-- An update of a stored user is what is read afterwards.
pub store_user-ok :
    (message : String) (user : User) (w : World) {old stored : User} {w' : World}
    → StoredUser user.id w old
    → store_user message user w ≡ (ok stored, w')
    → (stored ≡ record user { updated_at = w.now }) × StoredUser user.id w' stored
unfolding store_user
store_user-ok message user w {old} {stored} {w'} found h =
    let (_, w₁, q, h₁) = bind-ok _ _ w h in
    let (written, t) = update-ok user w (rethrow-ok _ _ w q) in
    let (now, w₂, c, h₂) = bind-ok _ _ w₁ h₁ in
    let (n, e) = clock-ok w₁ c in
    let (s, end) = pure-ok _ w₂ h₂ in
    let kept =
      find-change_first (λ (x : User). x.id == user.id) (λ _. record user { updated_at = w.now })
        w.users found (eq_refl user.id) in
    let stamp = n ∙ t in
    let same : stored ≡ record user { updated_at = w.now } = rw (← stamp) s in
    (same, rw (end, e, written, same) kept)

-- A one-time password was taken: the stored user differs by the step that is used up.
pub record Stepped (s : AuthService) (code : String) (now : Time) (before after : User)
    : Type 0 where
  pub step : ℤ
  pub enabled : totp_enabled before ≡ true
  pub matches : Matches s.totp before.totp_secret code now before.totp_last_step step
  pub left : after ≡ record before { totp_last_step = step; updated_at = now }

-- A recovery code was taken: the stored user differs by the hash that is used up.
pub record Spent (s : AuthService) (code : String) (now : Time) (before after : User) : Type 0 where
  pub rest : List String
  pub taken : use_recovery_code s.totp before.recovery_codes code ≡ some rest
  pub left : after ≡ record before { recovery_codes = rest; updated_at = now }

event-Stored :
    (s : AuthService) (r : HttpRequest) (id detail : String) (user : User)
    → Keeps
        (λ x t. find (λ (u : User). u.id == id) x.users ≡ some user)
        (record_event s.audit (event_of "totp.recovery_code_used" user detail r))
event-Stored s r id detail user =
    record_event-Keeps {P = λ x t. find (λ (u : User). u.id == id) x.users ≡ some user}
      (λ x t e h. h) s.audit _

spend_recovery_code-ok :
    (s : AuthService) (r : HttpRequest) (user : User) (o : Option (List String)) (w : World)
    {user' : User} {w' : World}
    → StoredUser user.id w user
    → spend_recovery_code s r user o w ≡ (ok (user', true), w')
    → (rest : List String) × (o ≡ some rest)
      × (user' ≡ record user { recovery_codes = rest; updated_at = w.now })
      × StoredUser user.id w' user'
unfolding spend_recovery_code
spend_recovery_code-ok s r user none w found h = let (e, _) = pure-ok _ w h in absurd (ground arith)
spend_recovery_code-ok s r user (some rest) w {user'} {w'} found h =
    let (stored, w₁, q, h₁) = bind-ok _ _ w h in
    let (e, kept) = store_user-ok _ (record user { recovery_codes = rest }) w found q in
    let (_, w₂, a, h₂) = bind-ok _ _ w₁ h₁ in
    let (p, end) = pure-ok _ w₂ h₂ in
    let same : user' ≡ stored = ap (λ (x : User × Bool). x.0) p in
    let after =
      subst
        (λ (x : Result Done × World). find (λ (u : User). u.id == user.id) x.1.users ≡ some stored)
        a ((event-Stored s r user.id (codes_left s rest) stored).at w₁ kept) in
    (rest, refl, same ∙ e, rw (end, same) after)

consume-Stored :
    (s : AuthService) (r : HttpRequest) (fresh : User) (code : String) (now : Time) (w : World)
    {user' : User} {w' : World}
    → StoredUser fresh.id w fresh
    → now ≡ w.now
    → spend_step s r fresh code (step_of s fresh code now) w ≡ (ok (user', true), w')
    → StoredUser fresh.id w' user' × (Stepped s code now fresh user' ⊎ Spent s code now fresh user')
unfolding spend_step
consume-Stored s r fresh code now w {user'} {w'} found here h =
    split (step_of s fresh code now) refl h
  where
    enabled_of :
        {step : ℤ}
        → step_of s fresh code now ≡ some step
        → (totp_enabled fresh ≡ true)
          × (verify_totp s.totp fresh.totp_secret code now fresh.totp_last_step ≡ some step)
    enabled_of e = ground arith

    split :
        (o : Option ℤ)
        → step_of s fresh code now ≡ o
        → spend_step s r fresh code o w ≡ (ok (user', true), w')
        → StoredUser fresh.id w' user'
          × (Stepped s code now fresh user' ⊎ Spent s code now fresh user')
    split none e q =
        let (rest, taken, left, stored) = spend_recovery_code-ok s r fresh _ w found q in
        (stored, inr (record { rest = rest; taken = taken; left = rw here left }))
    split (some step) e q =
        let (stored, w₁, u, q₁) = bind-ok _ _ w q in
        let (same, kept) = store_user-ok _ (record fresh { totp_last_step = step }) w found u in
        let (p, end) = pure-ok _ w₁ q₁ in
        let self : user' ≡ stored = ap (λ (x : User × Bool). x.0) p in
        let (enabled, verified) = enabled_of e in
        (
          rw (end, self) kept,
          inl (record {
            step = step;
            enabled = enabled;
            matches =
                verify_totp-some s.totp fresh.totp_secret code now fresh.totp_last_step verified;
            left = self ∙ rw here same;
          }),
        )

-- A code is right only against the user as stored at the moment: it is the password of a step after
-- the last one used, or it is one of the recovery codes; and the stored user afterwards is the same
-- but for that step, or that recovery code, being used up, and the time of the change.
pub consume_second_factor-ok :
    (s : AuthService) (r : HttpRequest) (user : User) (code : String) (w : World) {user' : User}
    {w' : World}
    → consume_second_factor s r user code w ≡ (ok (user', true), w')
    → (fresh : User) × StoredUser user.id w fresh
      × StoredUser user.id w' user'
      × (Stepped s (trim_space code) w.now fresh user'
          ⊎ Spent s (trim_space code) w.now fresh user')
unfolding consume_second_factor
consume_second_factor-ok s r user code w {user'} {w'} h =
    elim (Bool-cases (trim_space code == "")) [
      | inl empty ↦ let (e, _) = pure-ok _ w (rw empty at h) in absurd (ground arith)
      | inr given ↦
          let (fresh, w₁, f, h₁) = bind-ok _ _ w (rw given at h) in
          let (found, same) = user-fetched user.id w f in
          let (now, w₂, c, h₂) = bind-ok _ _ w₁ h₁ in
          let (n, e) = clock-ok w₁ c in
          let id =
            (eq_iff fresh.id user.id).0
              (find-passes (λ (u : User). u.id == user.id) w.users found) in
          let here : StoredUser fresh.id w₂ fresh = rw (id, e, same.store) found in
          let (stored, how) =
            consume-Stored s r fresh (trim_space code) now w₂ here
              (n ∙ ap (λ (v : World). v.now) (sym e)) h₂ in
          let t : now ≡ w.now = n ∙ same.now in
          (
            fresh,
            found,
            rw (← id) stored,
            subst
                (λ (x : Time).
                  Stepped s (trim_space code) x fresh user'
                  ⊎ Spent s (trim_space code) x fresh user')
                t how,
          )
    ]
