-- ===== src/Grid/Release.antt =====
-- A grid that is created and destroyed leaves nothing behind.
use underling.Common.{ℕ, ◌≡◌, ℤ, none, some, arith}
use underling.Machine.{World, ok}
use underling.Machine.Count.{Resource, Accounts}
use underling.Grid.Defs.{Grid, destroy}
use underling.Grid.Create.{create}
use underling.Grid.Accounts.{LeavesNull, owned, create-Spends, destroy-Spends}
use underling.Grid.Grants.{create-Grants}

-- Whatever the calls answer, and whatever they leave behind where they fail: a grid that is created
-- holds its block and its communicators and nothing else, and its destruction gives exactly these
-- back, so that the two together hold nothing.
pub destroy-create_grid :
    (c : ℕ) (n0 n1 n2 p_a p_b : ℤ) (r : Resource) (w w1 w2 : World) (g : Grid)
    → create c n0 n1 n2 p_a p_b w ≡ ok (some g) w1
    → destroy (some g) w1 ≡ ok tt w2
    → Accounts r w w1 0 (owned r g) × Accounts r w1 w2 (owned r g) 0 × Accounts r w w2 0 0
destroy-create_grid c n0 n1 n2 p_a p_b r w w1 w2 g h h' =
    let (i, j, l) = (create-Grants r c n0 n1 n2 p_a p_b).run w w1 g h in
    let (i', j', l') = (destroy-Spends {E = λ _. Unit {0}} r (some g)).run w1 w2 tt tt h' in
    (i, i', omega (arith, i, i'))

-- Where a call that fails to make a communicator leaves NULL, a creation that returns NULL holds nothing.
create-holds_nothing :
    (c : ℕ) (n0 n1 n2 p_a p_b : ℤ) (r : Resource) (w w1 : World)
    → LeavesNull w.env
    → create c n0 n1 n2 p_a p_b w ≡ ok none w1
    → Accounts r w w1 0 0
create-holds_nothing c n0 n1 n2 p_a p_b r w w1 e h =
    ((create-Spends r c n0 n1 n2 p_a p_b).run w w1 none e h).0
