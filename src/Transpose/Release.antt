-- ===== src/Transpose/Release.antt =====
-- A transpose that is created and destroyed leaves nothing behind.
use underling.Common.{◌≡◌, Option}
use underling.Machine.{World, ok}
use underling.Machine.Count.{Resource, Accounts}
use underling.Machine.Paired.{paired}
use underling.Transpose.Defs.{Transpose, create_inverse, destroy}
use underling.Transpose.Accounts.{owned?, create_inverse-Spends, destroy-Spends}

-- Whatever the calls answer: making the inverse of a transpose, where it returns, holds the block
-- and the communicator of the transpose that it returns and nothing else, nothing at all where it
-- returns NULL; the destruction gives exactly these back.
pub destroy-create_inverse :
    (f : Option Transpose) (r : Resource) (w w1 w2 : World) (t : Option Transpose)
    → create_inverse f w ≡ ok t w1
    → destroy t w1 ≡ ok tt w2
    → Accounts r w w1 0 (owned? r t) × Accounts r w1 w2 (owned? r t) 0 × Accounts r w w2 0 0
destroy-create_inverse f r w w1 w2 t h h' =
    paired (λ _. Unit) (create_inverse-Spends r f) (destroy-Spends r t) tt tt h h'
