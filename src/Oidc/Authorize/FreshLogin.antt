-- ===== src/Oidc/Authorize/FreshLogin.antt =====
-- When an authorization request makes a signed-in user sign in again.
use idpico.Prelude.{◌*◌, ◌^◌, ◌-◌, ◌^◌, ◌<◌, ◌≤◌, ℕ, false, ◌≡◌, ◌||◌, ltb, arith}
use idpico.Prelude.Int.{pos, to_int64}
use idpico.Domain.{Time, second}
use idpico.Oidc.Authorize.{AuthorizeRequest, has_prompt, seconds, since, requires_fresh_login}

to_int64-small : (n : ℕ) → n < 2 ^ 63 → to_int64 n ≡ pos n
to_int64-small n small = ground arith

-- Where no prompt asks for it, a request with a `max_age` of fewer than 2^63 nanoseconds makes a
-- user who signed in after the zero time and not in the future sign in again exactly when the
-- sign-in is older than that many seconds.
pub requires_fresh_login-iff_older :
    (r : AuthorizeRequest) (n : ℕ) (now auth_time : Time)
    → (has_prompt r "login" || has_prompt r "select_account") ≡ false
    → r.max_age ≡ pos n
    → n * second < 2 ^ 63
    → 0 < auth_time
    → auth_time ≤ now
    → requires_fresh_login r now auth_time ≡ ltb (n * second) (now - auth_time)
unfolding requires_fresh_login seconds since
requires_fresh_login-iff_older r n now auth_time quiet age small known past =
    let same = to_int64-small (n * second) small in rw (quiet, age) (rw same (ground arith))
