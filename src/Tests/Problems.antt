-- ===== src/Tests/Problems.antt =====
-- A problem of four fields on the grid, and its transposes.
use underling.Common.{ℕ, ◌≡◌, refl, ltb, if◌then◌else◌, ◌^◌, ◌*◌, pos, Option, none, some, arith}
use underling.Machine.Run.{Run}
use underling.Machine.{World, ok, stop, overflow}
use underling.Machine.Count.{Accounts}
use underling.Error.{reporting}
use underling.Extents.Defs.{Extents, get, invalid, finish, packed_strides, volume, fits_int}
use underling.Grid.Defs.{releasing}
use underling.Transpose.Defs.{
  Transpose, comm_dup_with_name, is_trivial, with_local, without_local, fix_local, workspace,
  inverse_flags, has_other_flags, create_inverse,
}
use underling.Problem.Defs.{
  Problem, first_share, second_share, share_fits, order_long_n0, order_long_n1, order_long_n2,
  unfinished, layout_n0, layout_n1, layout_n2, laid_out, products_fit,
}
use underling.Problem.Create.{
  check_arguments, howmany_tmp, with_local_memory, require, create_forward, create_backward,
  share_blocks, decompose, allocate, given,
}
use underling.Problem.Accounts.{owned_problem}
use underling.FftwExtents.Defs.{adjust}
use underling.Fftw.Adjust.{IsAdjusted, create-adjusts}
use underling.Problem.Query.{pencil, global_memory_optimum}
use underling.Problem.Memory.{HoldsTransposes, create-HoldsTransposes, global_memory_optimum_lem}
use underling.Problem.Layout.{Addresses, create-Addresses}
use underling.Problem.Release.{destroy-create_problem}
use underling.Problem
use underling.Transpose
use underling.Tests.Worlds.{world, world_of, result_of}
use underling.Tests.Grids.{grid, seventh}

abbrev creation : Run (Option Problem)
creation = Problem.Create.create (some grid) (pos 4) 0 world

abbrev pub blank_transpose : Transpose
blank_transpose = record {
  block = 0;
  comm = 0;
  d0 = 0;
  d1 = 0;
  howmany = 0;
  block0 = 0;
  block1 = 0;
  flags = 0;
  local0 = 0;
  local1 = 0;
  local_start0 = 0;
  local_start1 = 0;
  local_size = 0;
}

abbrev pub blank_problem : Problem
blank_problem = record {
  block = 0;
  howmany = 0;
  long_n0 = invalid;
  long_n1 = invalid;
  long_n2 = invalid;
  backward_a = none;
  backward_b = none;
  forward_b = none;
  forward_a = none;
  local_memory = 0;
}

abbrev pub problem : Problem
problem = result_of blank_problem creation

abbrev after_creation : World
after_creation = world_of creation

abbrev after_destruction : World
after_destruction = world_of (Problem.Defs.destroy (some problem) after_creation)

-- What a creation is made of.
unfoldable pub making : Unit {0}
unfolding Problem.Create.create check_arguments given allocate decompose howmany_tmp share_blocks
    products_fit fits_int laid_out first_share second_share share_fits order_long_n0 order_long_n1
    order_long_n2 unfinished layout_n0 layout_n1 layout_n2 finish get packed_strides volume
    create_backward create_forward require with_local_memory Transpose.Defs.create create_inverse
    comm_dup_with_name is_trivial with_local without_local fix_local workspace inverse_flags
    has_other_flags reporting
making = tt

created : creation ≡ ok (some problem) after_creation
unfolding making
created = refl

destroyed : Problem.Defs.destroy (some problem) after_creation ≡ ok tt after_destruction
unfolding Problem.Defs.destroy Transpose.Defs.destroy making releasing
destroyed = refl

create-HoldsTransposes_example : HoldsTransposes problem
create-HoldsTransposes_example =
    create-HoldsTransposes (some grid) (pos 4) 0 world after_creation problem created

create-Addresses_example :
    Addresses problem.long_n0 × Addresses problem.long_n1 × Addresses problem.long_n2
create-Addresses_example = create-Addresses grid (pos 4) 0 world after_creation problem created

destroy-create_problem_example :
    Accounts seventh world after_creation 0 (owned_problem seventh (some problem))
    × Accounts seventh after_creation after_destruction (owned_problem seventh (some problem)) 0
    × Accounts seventh world after_destruction 0 0
destroy-create_problem_example =
    destroy-create_problem (some grid) (pos 4) 0 seventh world after_creation after_destruction
      (some problem) (λ t a b c. refl) created destroyed

global_memory_optimum_example : global_memory_optimum (some grid) (some problem) world ≡ (
    if ltb (problem.howmany * 4 * 5 * 6) (2 ^ 31)
    then ok (problem.howmany * 4 * 5 * 6) world
    else stop overflow world)
global_memory_optimum_example =
    global_memory_optimum_lem grid problem world (omega arith) (omega arith) (omega arith)

create-adjusts_example :
    (a : Extents) × (n : ℕ) × (adjust (pencil problem 0) (pos 2) world ≡ ok (a, n) world)
    × IsAdjusted (pencil problem 0) (pos 2) a
    × Addresses a
create-adjusts_example =
    create-adjusts grid (pos 4) 0 world after_creation world problem 0 2 created (omega arith)
