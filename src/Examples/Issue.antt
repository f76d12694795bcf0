-- ===== src/Examples/Issue.antt =====
-- The issue of an authorization code.
use idpico.Prelude.{◌≡◌, refl, false, []}
use idpico.Domain.{AuthCode}
use idpico.World.{World}
use idpico.Exec.{ok, ◌>>=◌}
use idpico.Store.File.{load, save}
use idpico.Store.AuthCodes
use idpico.Oidc.Authorize.{create_auth_code}
use idpico.Oidc.Authorize.Issued.{Issued, create_auth_code-ok}
use idpico.Examples.{start, authorize_request}

abbrev issued : AuthCode
issued = record {
  code = "refresh-2";
  client_id = "web";
  user_id = "alice";
  redirect_uri = "https://web.example/cb";
  scope = "openid offline_access";
  code_challenge = "hash of verifier";
  code_challenge_method = "S256";
  nonce = "";
  auth_time = 5;
  amr = [];
  created_at = 100;
  expires_at = 700;
  used = false;
}

abbrev after : World
after = (create_auth_code 600 authorize_request "alice" 5 [] start).1

issue_test : create_auth_code 600 authorize_request "alice" 5 [] start ≡ (ok issued, after)
unfolding create_auth_code AuthCodes.create ◌>>=◌ load save
issue_test = refl

create_auth_code-ok_example : Issued 600 authorize_request "alice" 5 [] start issued after
create_auth_code-ok_example =
    create_auth_code-ok 600 authorize_request "alice" 5 [] start refl issue_test
