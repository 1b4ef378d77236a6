-- ===== src/Tests/Transforms.antt =====
-- Transforms of the problem along n2, n0 and n1, and an inverse.
use underling.Common.{ℕ, ◌==◌, ◌≡◌, refl, ◌≢◌, true, pos, Option, some}
use underling.Machine.Run.{Run}
use underling.Machine.{World, ok}
use underling.Machine.Count.{Accounts}
use underling.Error.{success}
use underling.Extents.Defs.{get, set}
use underling.Problem.Query.{local_extents, pencil}
use underling.FftwExtents.Defs.{
  invalid, get5, set5, rotate_left, shift, rotate_order, rotate_until, restride, rotated, adjust,
  packed_strides, pack, complex_layout, real_layout, check_layout, or_invalid, for_complex,
  for_real,
}
use underling.FftwExtents
use underling.Plan.Defs.{release_plan}
use underling.Plan.Create.{non_rigor_mask}
use underling.Fftw.Defs.{c2c_forward, FftwPlan, destroy, execute}
use underling.Fftw.Complex.{
  check_arguments, initial, forward, reorder_complex, other_directions, offsets, c2c_transform,
  c2c_reorder, c2c_internal,
}
use underling.Fftw.Half.{
  c2r_after, c2r_postorder, c2r_transform, c2r_preorder, c2r_internal, r2c_after, r2c_postorder,
  r2c_transform, r2c_internal,
}
use underling.Fftw.Create.{
  is_packed, with_packing, not_in_place, create_c2c, create_c2r_backward, create_r2c_forward,
  check_inverse, inverted, create_inverse, packed_long_n2,
}
use underling.Fftw.Accounts.{owned?}
use underling.Fftw.Execute.{calls, after_calls}
use underling.Fftw.Ready.{create_c2c-executes, create_r2c_forward-executes}
use underling.Fftw.Inverse.{opposite, create_inverse-exchanges}
use underling.Fftw.Release.{destroy-create_fftw_inverse}
use underling.Tests.Worlds.{world, world_of, result_of}
use underling.Tests.Grids.{seventh}
use underling.Tests.Layouts.{memcmp5}
use underling.Tests.Problems.{problem, making}

abbrev src : ℕ
src = 100

abbrev dst : ℕ
dst = 9000

abbrev blank : FftwPlan
blank = record {
  block = 0;
  long_ni = 0;
  type = c2c_forward;
  input = invalid;
  plan_preorder = 0;
  plan_fftw = 0;
  plan_postorder = 0;
  output = invalid;
  in_place = true;
  offset = record { ri = 0; ii = 0; ro = 0; io = 0 };
}

-- A forward transform in place along n0, a backward one to reals along n1, and a forward one of
-- reals along n2 that is packed.
abbrev complex_run : Run (Option FftwPlan)
complex_run = create_c2c forward (some problem) (pos 0) src src 64 0 world

abbrev to_real_run : Run (Option FftwPlan)
to_real_run = create_c2r_backward (some problem) (pos 1) src src 64 0 world

abbrev from_real_run : Run (Option FftwPlan)
from_real_run = create_r2c_forward (some problem) (pos 2) src dst 64 packed_long_n2 world

abbrev complex : FftwPlan
complex = result_of blank complex_run

abbrev to_real : FftwPlan
to_real = result_of blank to_real_run

abbrev from_real : FftwPlan
from_real = result_of blank from_real_run

abbrev inverse_run : Run (Option FftwPlan)
inverse_run = create_inverse memcmp5 (some from_real) dst src 64 world

abbrev inverse : FftwPlan
inverse = result_of blank inverse_run

-- What the creations are made of.
unfoldable pub transforming : Unit {0}
unfolding making get set get5 set5 rotate_left shift rotate_order rotate_until restride rotated
    adjust FftwExtents.Defs.packed_strides pack complex_layout real_layout check_layout or_invalid
    for_complex for_real local_extents pencil non_rigor_mask check_arguments initial reorder_complex
    other_directions offsets c2c_transform c2c_reorder c2c_internal c2r_after c2r_postorder
    c2r_transform c2r_preorder c2r_internal r2c_after r2c_postorder r2c_transform r2c_internal
    is_packed with_packing not_in_place create_c2c create_c2r_backward create_r2c_forward
    FftwExtents.Defs.cmp check_inverse inverted create_inverse destroy release_plan
transforming = tt

complex_created : complex_run ≡ ok (some complex) (world_of complex_run)
unfolding transforming
complex_created = refl

to_real_created : to_real_run ≡ ok (some to_real) (world_of to_real_run)
unfolding transforming
to_real_created = refl

from_real_created : from_real_run ≡ ok (some from_real) (world_of from_real_run)
unfolding transforming
from_real_created = refl

inverse_created : inverse_run ≡ ok (some inverse) (world_of inverse_run)
unfolding transforming
inverse_created = refl

-- The world after a plan is destroyed.
abbrev gone : FftwPlan → Run (Option FftwPlan) → World
gone f m = world_of (destroy (some f) (world_of m))

complex_destroyed : destroy (some complex) (world_of complex_run) ≡ ok tt (gone complex complex_run)
unfolding transforming
complex_destroyed = refl

to_real_destroyed : destroy (some to_real) (world_of to_real_run) ≡ ok tt (gone to_real to_real_run)
unfolding transforming
to_real_destroyed = refl

inverse_destroyed : destroy (some inverse) (world_of inverse_run) ≡ ok tt (gone inverse inverse_run)
unfolding transforming
inverse_destroyed = refl

destroy-create_fftw_inverse_example :
    Accounts seventh world (world_of inverse_run) 0 (owned? seventh (some inverse))
    × Accounts seventh
        (world_of inverse_run)
        (gone inverse inverse_run)
        (owned? seventh (some inverse))
        0
    × Accounts seventh world (gone inverse inverse_run) 0 0
destroy-create_fftw_inverse_example =
    destroy-create_fftw_inverse memcmp5 (some from_real) dst src 64 seventh world
      (world_of inverse_run) (gone inverse inverse_run) (some inverse) inverse_created
      inverse_destroyed

create_c2c-executes_example :
    execute (some complex) src src world ≡ ok success (after_calls (calls complex src src) world)
create_c2c-executes_example =
    create_c2c-executes forward (some problem) (pos 0) src src 64 0 world (world_of complex_run)
      world complex complex_created

create_r2c_forward-executes_example :
    execute (some from_real) src dst world
    ≡ ok success (after_calls (calls from_real src dst) world)
create_r2c_forward-executes_example =
    create_r2c_forward-executes (some problem) (pos 2) src dst 64 packed_long_n2 world
      (world_of from_real_run) world from_real from_real_created

create_inverse-exchanges_example :
    (inverse.type ≡ opposite from_real.type)
    × (inverse.long_ni ≡ from_real.long_ni)
    × (inverse.input ≡ from_real.output)
    × (inverse.output ≡ from_real.input)
    × (inverse.in_place ≡ (dst == src))
    × (inverse.plan_fftw ≢ 0)
create_inverse-exchanges_example =
    create_inverse-exchanges memcmp5 from_real dst src 64 world (world_of inverse_run) inverse
      inverse_created
