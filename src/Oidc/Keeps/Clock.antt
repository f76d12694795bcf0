-- ===== src/Oidc/Keeps/Clock.antt =====
-- The endpoints leave the clock alone.
use idpico.Prelude.{String, ◌≡◌}
use idpico.Domain.{Time, Token, AuthCode}
use idpico.World.{Store}
use idpico.Exec.Keeps.{Keeps, Keeps-save, keeps_rules}
use idpico.Store.Tokens
use idpico.Store.AuthCodes
use idpico.Store.Revocations
use idpico.Oidc.Keeps.{Survives}

-- The clock shows `n`.
abbrev pub Shows : Time → Store → Time → Type 0
Shows n s t = t ≡ n

cut-Shows :
    (n : Time) (kind key : String) (t : Time)
    → Keeps (Shows n) (Revocations.revoke_before kind key t)
unfolding Revocations.revoke_before Revocations.upsert
cut-Shows n kind key t = search (keeps_rules, Keeps-save)

revoke-Shows : (n : Time) (id : String) → Keeps (Shows n) (Tokens.revoke id)
unfolding Tokens.revoke
revoke-Shows n id = search (keeps_rules, Keeps-save, cut-Shows) depth 12

rotate-Shows : (n : Time) (id : String) → Keeps (Shows n) (Tokens.rotate id)
unfolding Tokens.rotate
rotate-Shows n id = search (keeps_rules, Keeps-save) depth 12

create_token-Shows : (n : Time) (t : Token) → Keeps (Shows n) (Tokens.create t)
unfolding Tokens.create
create_token-Shows n t = search (keeps_rules, Keeps-save)

mark_used-Shows : (n : Time) (code : String) → Keeps (Shows n) (AuthCodes.mark_used code)
unfolding AuthCodes.mark_used
mark_used-Shows n code = search (keeps_rules, Keeps-save) depth 12

create_code-Shows : (n : Time) (c : AuthCode) → Keeps (Shows n) (AuthCodes.create c)
unfolding AuthCodes.create
create_code-Shows n c = search (keeps_rules, Keeps-save)

pub Shows-Survives : (n : Time) → Survives (Shows n)
Shows-Survives n = record {
  on_clients = λ s t x h. h;
  on_revocations = λ s t x h. h;
  on_revoke = revoke-Shows n;
  on_rotate = rotate-Shows n;
  on_create_token = create_token-Shows n;
  on_mark_used = mark_used-Shows n;
  on_create_code = create_code-Shows n;
}
