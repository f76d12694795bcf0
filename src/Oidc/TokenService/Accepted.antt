-- ===== src/Oidc/TokenService/Accepted.antt =====
-- What it takes for an authorization code to be accepted, and what that changes.
use idpico.Prelude.{
  ℕ, ◌≤◌, String, ◌≡◌, ◌∙◌, true, false, not, some, ◌==◌, eq_iff, find, change_first, arith,
  if◌then◌else◌,
}
use idpico.Errors.{Error, is_code, code_conflict, wrapped}
use idpico.Domain.{AuthCode, is_expired}
use idpico.World.{World}
use idpico.Exec.{Done, ok, pure, raise}
use idpico.Exec.Inversion.{bind-ok, check-ok, pure-ok, clock-ok, raise-ok, else-ok, branch-ok}
use idpico.Store.File.{auth_codes, Wrote}
use idpico.Store.Fetch.{mark_used-ok}
use idpico.Store.AuthCodes
use idpico.Store.AuthCodes.{use_up}
use idpico.Oidc.Types.{TokenRequest}
use idpico.Oidc.Pkce.{validate_code_verifier}
use idpico.Oidc.TokenService.{TokenService}
use idpico.Oidc.TokenService.Exchange.{code_reused, consume_code, accept_code}

code_reused_fails :
    (s : TokenService) (ac : AuthCode) (w : World) {u : Done} {w' : World}
    → code_reused s ac w ≡ (ok u, w')
    → ⊥
unfolding code_reused
code_reused_fails s ac w h = let (_, w₁, _, r) = bind-ok _ _ w h in raise-ok _ w₁ r

consume_code-ok :
    (s : TokenService) (code : String) (ac : AuthCode) (w : World) {u : Done} {w' : World}
    → consume_code s code ac w ≡ (ok u, w')
    → AuthCodes.mark_used code w ≡ (ok u, w')
unfolding consume_code
consume_code-ok s code ac w {u} {w'} h =
    let (v, w₁, m, p) = branch-ok (AuthCodes.mark_used code) pure _ w (refused w') h in
    let (_, end) = pure-ok v w₁ p in rw end m
  where
    refused :
        (w' : World) (e : Error) (v : World)
        → (if is_code e code_conflict
              then code_reused s ac
              else raise (wrapped "failed to mark code as used" e))
            v
          ≡ (ok u, w')
        → ⊥
    refused w' e v g =
        raise-ok _ v (else-ok (is_code e code_conflict) _ _ v (code_reused_fails s ac v) g).1

-- A code that was accepted for a request.
pub record Accepted (s : TokenService) (req : TokenRequest) (ac : AuthCode) (w w' : World)
    : Type 0 where
  pub bound : ac.client_id ≡ req.client_id
  pub fresh : ac.used ≡ false
  pub in_time : w.now ≤ ac.expires_at
  pub redirect : ac.redirect_uri ≡ req.redirect_uri
  pub verified :
      validate_code_verifier s.crypto req.code_verifier ac.code_challenge ac.code_challenge_method
      ≡ true
  pub stored : AuthCode
  pub was : find (λ a. a.code == req.code) w.auth_codes ≡ some stored
  pub unused : stored.used ≡ false
  pub spent : Wrote auth_codes (change_first (λ a. a.code == req.code) use_up w.auth_codes) w w'

in_time_lem : (now expiry : ℕ) → not (is_expired now expiry) ≡ true → now ≤ expiry
in_time_lem now expiry h = ground arith

pub accept_code-ok :
    (s : TokenService) (req : TokenRequest) (ac : AuthCode) (w : World) {u : Done} {w' : World}
    → accept_code s req ac w ≡ (ok u, w')
    → Accepted s req ac w w'
unfolding accept_code
accept_code-ok s req ac w h =
    let (_, w₁, c₁, h₁) = bind-ok _ _ w h in
    let (bound, e₁) = check-ok _ _ w c₁ in
    let (_, w₂, c₂, h₂) = bind-ok _ _ w₁ h₁ in
    let (fresh, q) = else-ok ac.used _ _ w₁ (code_reused_fails s ac w₁) c₂ in
    let (_, e₂) = pure-ok tt w₁ q in
    let (now, w₃, c₃, h₃) = bind-ok _ _ w₂ h₂ in
    let (instant, e₃) = clock-ok w₂ c₃ in
    let (_, w₄, c₄, h₄) = bind-ok _ _ w₃ h₃ in
    let (in_time, e₄) = check-ok _ _ w₃ c₄ in
    let (_, w₅, c₅, h₅) = bind-ok _ _ w₄ h₄ in
    let (redirect, e₅) = check-ok _ _ w₄ c₅ in
    let (_, w₆, c₆, h₆) = bind-ok _ _ w₅ h₅ in
    let (verified, e₆) = check-ok _ _ w₅ c₆ in
    let m = consume_code-ok s req.code ac w₆ h₆ in
    let start : w₆ ≡ w = e₆ ∙ e₅ ∙ e₄ ∙ e₃ ∙ e₂ ∙ e₁ in
    let (stored, was, unused, spent) = mark_used-ok req.code w (rw start at m) in
    record {
      bound = (eq_iff _ _).0 bound;
      fresh = fresh;
      in_time = in_time_lem w.now ac.expires_at (rw (instant, e₂, e₁) at in_time);
      redirect = (eq_iff _ _).0 redirect;
      verified = verified;
      stored = stored;
      was = was;
      unused = unused;
      spent = spent;
    }
