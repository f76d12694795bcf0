-- ===== src/Oidc/Retired.antt =====
-- A refresh token that is stored as revoked stays so, whatever the endpoints write.
use idpico.Prelude.{
  first_is-change_first, first_is-append, first_is, String, ◌≡◌, refl, Bool, true, List, [], ◌∷◌,
  ◌==◌, change_first, arith,
}
use idpico.Domain.{user_client_key, revocation_user_client, Time, AuthCode, Token}
use idpico.World.{Store}
use idpico.Exec.{clock, ◌>>=◌}
use idpico.Exec.Keeps.{save-at, bind-at, require-at, load-at, Keeps, keeps_rules, Keeps-save}
use idpico.Store.File.{tokens, load, save}
use idpico.Store.AuthCodes
use idpico.Store.Tokens
use idpico.Store.Tokens.{retire}
use idpico.Store.Revocations
use idpico.Oidc.Keeps.{Survives}

abbrev pub has_id : String → Token → Bool
has_id id t = t.id == id

-- The refresh token is stored, and revoked.
abbrev pub IsRetired : String → Store → Time → Type 0
IsRetired id s t = first_is (has_id id) (λ t. t.revoked) s.tokens ≡ true

retire-IsRetired :
    (id other : String) (xs : List Token)
    → first_is (has_id id) (λ t. t.revoked) xs ≡ true
    → first_is (has_id id) (λ t. t.revoked) (change_first (has_id other) retire xs) ≡ true
retire-IsRetired id other xs =
    first_is-change_first (has_id id) (λ t. t.revoked) (has_id other) retire xs (λ t. refl)
      (λ t. refl)

revoke_before-IsRetired :
    (id kind key : String) (now : Time)
    → Keeps (IsRetired id) (Revocations.revoke_before kind key now)
unfolding Revocations.revoke_before Revocations.upsert
revoke_before-IsRetired id kind key now = search (keeps_rules, Keeps-save)

rotate-IsRetired : (id other : String) → Keeps (IsRetired id) (Tokens.rotate other)
unfolding Tokens.rotate load save ◌>>=◌
rotate-IsRetired id other = record {
  at = λ w h. ground (arith, retire-IsRetired id other w.tokens h);
}

pub cut_off-IsRetired :
    (id : String) (t : Token)
    → Keeps (IsRetired id) (
        clock >>= λ now.
        Revocations.revoke_before revocation_user_client
          (user_client_key t.user_id t.client_id)
          now)
cut_off-IsRetired id t = search (keeps_rules, revoke_before-IsRetired)

pub revoke-IsRetired : (id other : String) → Keeps (IsRetired id) (Tokens.revoke other)
unfolding Tokens.revoke
revoke-IsRetired id other = load-at (IsRetired id) tokens _ _ λ w h.
    require-at (IsRetired id) _ _ _ w h λ t.
      bind-at (IsRetired id) _ _ w
        (save-at (IsRetired id) tokens _ w h (retire-IsRetired id other w.tokens h))
        (λ _. cut_off-IsRetired id t)

create_token-IsRetired : (id : String) (t : Token) → Keeps (IsRetired id) (Tokens.create t)
unfolding Tokens.create load save ◌>>=◌
create_token-IsRetired id t = record {
  at = λ w h. ground (
    arith,
    first_is-append (has_id id) (λ t. t.revoked) w.tokens (record t { created_at = w.now } ∷ []) h,
  );
}

mark_used-IsRetired : (id code : String) → Keeps (IsRetired id) (AuthCodes.mark_used code)
unfolding AuthCodes.mark_used
mark_used-IsRetired id code = search (keeps_rules, Keeps-save) depth 9

create-IsRetired : (id : String) (ac : AuthCode) → Keeps (IsRetired id) (AuthCodes.create ac)
unfolding AuthCodes.create
create-IsRetired id ac = search (keeps_rules, Keeps-save)

pub IsRetired-Survives : (id : String) → Survives (IsRetired id)
IsRetired-Survives id = record {
  on_clients = λ s t x h. h;
  on_revocations = λ s t x h. h;
  on_revoke = revoke-IsRetired id;
  on_rotate = rotate-IsRetired id;
  on_create_token = create_token-IsRetired id;
  on_mark_used = mark_used-IsRetired id;
  on_create_code = create-IsRetired id;
}
