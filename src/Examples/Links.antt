-- ===== src/Examples/Links.antt =====
-- Operations on the verification tokens.
use idpico.Prelude.{◌≤◌, false, [], ◌∷◌, arith}
use idpico.Domain.{VerificationToken}
use idpico.World.{World}
use idpico.Store.VerificationTokens.Unique.{
  count_hash, Operation, creating, marking, deleting_of_user, deleting_expired, perform_all,
  perform_all-IsUnique,
}
use idpico.Examples.{List, true, start}

abbrev link : VerificationToken
link = record {
  token_hash = "h";
  user_id = "alice";
  purpose = "password_reset";
  created_at = 0;
  expires_at = 900;
  used = false;
}

-- The same link twice, with a read that fails in between.
abbrev operations : List Operation
operations =
    creating link
    ∷ creating (record link { user_id = "bob" })
    ∷ marking "h"
    ∷ deleting_of_user "bob" ""
    ∷ deleting_expired
    ∷ []

abbrev faulty : World
faulty = record start { faults = false ∷ false ∷ true ∷ [] }

perform_all-IsUnique_example :
    count_hash "h" (perform_all operations faulty).verification_tokens ≤ 1
perform_all-IsUnique_example = perform_all-IsUnique "h" operations faulty (omega arith)
