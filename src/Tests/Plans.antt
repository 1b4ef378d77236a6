-- ===== src/Tests/Plans.antt =====
-- A plan out of place for the problem, made with the flag for no transposes.
use underling.Common.{ℕ, bit_or, ◌==◌, ◌≡◌, refl, ◌≢◌, ◌↔◌, true, Option, some}
use underling.Machine.Run.{Run}
use underling.Machine.{World, ok, mpi_execute_r2r}
use underling.Machine.Count.{Accounts}
use underling.Machine.At.{after_call}
use underling.Error.{success}
use underling.Transpose.Defs.{fftw_plan}
use underling.Plan.Defs.{Plan, release_plan, destroy, execute}
use underling.Plan.Create.{
  non_rigor_mask, check_arguments, effective_flags, debug_dump, plan_direction, plan_forward,
  plan_backward, initial, given, create, transpose_none,
}
use underling.Plan.Accounts.{owned?}
use underling.Plan.Execute.{IsComplete, create-IsComplete, execute-success_iff}
use underling.Plan.Requests.{Answered, create-requests}
use underling.Plan.Release.{destroy-create_plan}
use underling.Tests.Worlds.{world, world_of, result_of}
use underling.Tests.Grids.{seventh}
use underling.Tests.Problems.{problem, making}

abbrev pub src : ℕ
src = 100

abbrev pub dst : ℕ
dst = 200

abbrev creation : Run (Option Plan)
creation = create (some problem) src dst transpose_none 0 world

abbrev blank : Plan
blank = record {
  block = 0;
  in_place = true;
  plan_backward_a = 0;
  plan_backward_b = 0;
  plan_forward_a = 0;
  plan_forward_b = 0;
}

abbrev pub plan : Plan
plan = result_of blank creation

abbrev pub after_creation : World
after_creation = world_of creation

abbrev after_destruction : World
after_destruction = world_of (destroy (some plan) after_creation)

pub created : creation ≡ ok (some plan) after_creation
unfolding create non_rigor_mask check_arguments effective_flags debug_dump plan_direction
    plan_forward plan_backward initial given fftw_plan making
created = refl

destroyed : destroy (some plan) after_creation ≡ ok tt after_destruction
unfolding destroy release_plan create non_rigor_mask check_arguments effective_flags debug_dump
    plan_direction plan_forward plan_backward initial given fftw_plan making
destroyed = refl

create-IsComplete_example : IsComplete src dst plan
create-IsComplete_example =
    create-IsComplete (some problem) src dst transpose_none 0 world after_creation plan created

destroy-create_plan_example :
    Accounts seventh world after_creation 0 (owned? seventh (some plan))
    × Accounts seventh after_creation after_destruction (owned? seventh (some plan)) 0
    × Accounts seventh world after_destruction 0 0
destroy-create_plan_example =
    destroy-create_plan (some problem) src dst transpose_none 0 seventh world after_creation
      after_destruction (some plan) created destroyed

execute-success_iff_example :
    (execute "plan == NULL" (λ p. p.plan_forward_a) (some plan) src dst world ≡ ok success world)
    ↔ ((plan.plan_forward_a ≢ 0)
        × (src ≢ 0)
        × (dst ≢ 0)
        × (plan.in_place ≡ (src == dst))
        × (world ≡ after_call (mpi_execute_r2r plan.plan_forward_a src dst) world))
execute-success_iff_example =
    execute-success_iff "plan == NULL" (λ p. p.plan_forward_a) plan src dst world world

create-requests_example : Answered world.env src dst (bit_or 0 1) problem plan
create-requests_example =
    create-requests problem src dst transpose_none 0 world after_creation plan created
