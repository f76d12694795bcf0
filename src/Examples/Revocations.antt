-- ===== src/Examples/Revocations.antt =====
-- A cut for a user, and access tokens before and after it.
use idpico.Prelude.{◌≡◌, refl, true, false, inl, arith}
use idpico.Domain.{revocation_user, revocation_client}
use idpico.World.{World}
use idpico.Exec.{ok, ◌>>=◌}
use idpico.Store.File.{load, save}
use idpico.Store.Revocations.{upsert, revoke_before, rejects, upserted}
use idpico.Store.Revocations.Rejection.{rejected, revoke_before-rejects, upsert-keeps_rejected}
use idpico.Examples.{start}

abbrev after_cut : World
after_cut = (revoke_before revocation_user "alice" 50 start).1

cut_test : revoke_before revocation_user "alice" 50 start ≡ (ok tt, after_cut)
unfolding revoke_before upsert ◌>>=◌ load save
cut_test = refl

revoke_before-rejects_example : rejected after_cut "token-1" "alice" "web" 40 ≡ true
revoke_before-rejects_example =
    revoke_before-rejects revocation_user "alice" "token-1" "alice" "web" 40 50 start
      (inl (refl, refl)) (omega arith) cut_test

-- A token that was issued later is good.
later_test : rejected after_cut "token-2" "alice" "web" 60 ≡ false
unfolding revoke_before upsert ◌>>=◌ load save rejects upserted
later_test = refl

abbrev after_second : World
after_second = (upsert revocation_client "web" 10 20 after_cut).1

second_test : upsert revocation_client "web" 10 20 after_cut ≡ (ok tt, after_second)
unfolding revoke_before upsert ◌>>=◌ load save
second_test = refl

upsert-keeps_rejected_example : rejected after_second "token-1" "alice" "web" 40 ≡ true
upsert-keeps_rejected_example =
    upsert-keeps_rejected revocation_client "web" "token-1" "alice" "web" 40 10 20 after_cut
      revoke_before-rejects_example second_test
