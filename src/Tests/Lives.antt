-- ===== src/Tests/Lives.antt =====
-- A problem and a plan in a world where every call succeeds.
use underling.Common.{◌≡◌, refl, pos, none, some, arith}
use underling.Machine.{World, ok}
use underling.Machine.Works.{Works}
use underling.Problem
use underling.Problem.Defs.{Problem}
use underling.Problem.Success.{AreTheFlags, Fits}
use underling.Plan.Defs.{Plan}
use underling.Plan.Create.{check_arguments, create, non_rigor_mask}
use underling.Plan.Lives.{Executes, create-lives}
use underling.Tests.Worlds.{world, serial, constants}
use underling.Tests.Grids.{grid}
use underling.Tests.Problems.{making}

works : Works serial
works = record {
  status = λ t c. refl;
  malloc = λ t s. omega arith;
  comm_dup = λ t c. omega arith;
  plan_many_transpose = λ t d0 d1 h b0 b1 x y c f. omega arith;
  plan_guru_r2r = λ t l x y f. omega arith;
}

fits : Fits serial grid 4 0
unfolding making
fits = record { share_b = λ t. refl; share_a = λ t. refl; products = λ i t t'. refl }

the_flags : AreTheFlags constants
the_flags = record { in_only = refl; out_only = refl }

accepted : Problem.Create.check_arguments (some grid) (pos 4) 0 ≡ none
unfolding making
accepted = refl

accepted_plan : (b : Problem) → check_arguments constants (some b) 100 200 0 64 ≡ none
unfolding check_arguments non_rigor_mask
accepted_plan b = refl

create-lives_example :
    (b : Problem) × (w1 : World) × (Problem.Create.create (some grid) (pos 4) 0 world
      ≡ ok (some b) w1)
    × (p : Plan) × (w2 : World) × (create (some b) 100 200 0 64 w1 ≡ ok (some p) w2)
    × ((u : World) → Executes p 100 200 u)
create-lives_example =
    create-lives grid (pos 4) 0 100 200 0 64 world works the_flags (omega arith) (omega arith) fits
      accepted accepted_plan
