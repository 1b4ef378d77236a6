-- ===== src/Problem/Release.antt =====
-- A problem that is created and destroyed leaves nothing behind, where broadcasts succeed.
use mathlib.Core.Path.{subst}
use underling.Common.{ℕ, ◌≡◌, sym, ℤ, Option}
use underling.Machine.{World, ok}
use underling.Machine.Count.{Resource, Accounts}
use underling.Machine.Paired.{paired}
use underling.Grid.Defs.{Grid}
use underling.Problem.Defs.{Problem, destroy}
use underling.Problem.Create.{create}
use underling.Problem.Accounts.{owned_problem, BcastSucceeds, create-Spends, destroy-Spends}

-- Where broadcasts do not fail, whatever the other calls answer: a creation that returns holds the
-- block of the problem that it returns and the blocks and communicators of its transposes and
-- nothing else, nothing at all where it returns NULL; the destruction gives exactly these back.
pub destroy-create_problem :
    (g : Option Grid) (howmany : ℤ) (flags : ℕ) (r : Resource) (w w1 w2 : World)
    (p : Option Problem)
    → BcastSucceeds w.env
    → create g howmany flags w ≡ ok p w1
    → destroy p w1 ≡ ok tt w2
    → Accounts r w w1 0 (owned_problem r p)
      × Accounts r w1 w2 (owned_problem r p) 0
      × Accounts r w w2 0 0
destroy-create_problem g howmany flags r w w1 w2 p e h h' =
    let s = create-Spends r g howmany flags in
    paired BcastSucceeds s (destroy-Spends r p) e (subst BcastSucceeds (sym (s.run w w1 p e h).1) e)
      h h'
