-- ===== src/Plan/Release.antt =====
-- A plan that is created and destroyed leaves nothing behind.
use underling.Common.{ℕ, ◌≡◌, Option}
use underling.Machine.{World, ok}
use underling.Machine.Count.{Resource, Accounts}
use underling.Machine.Paired.{paired}
use underling.Problem.Defs.{Problem}
use underling.Plan.Defs.{Plan, destroy}
use underling.Plan.Create.{create}
use underling.Plan.Accounts.{owned?, create-Spends, destroy-Spends}

-- Whatever the calls answer: a creation that returns holds the block and the FFTW plans of the plan
-- that it returns and nothing else, nothing at all where it returns NULL; the destruction gives
-- exactly these back.
pub destroy-create_plan :
    (b : Option Problem) (src dst flags rigor : ℕ) (r : Resource) (w w1 w2 : World)
    (p : Option Plan)
    → create b src dst flags rigor w ≡ ok p w1
    → destroy p w1 ≡ ok tt w2
    → Accounts r w w1 0 (owned? r p) × Accounts r w1 w2 (owned? r p) 0 × Accounts r w w2 0 0
destroy-create_plan b src dst flags rigor r w w1 w2 p h h' =
    paired (λ _. Unit) (create-Spends r b src dst flags rigor) (destroy-Spends r p) tt tt h h'
