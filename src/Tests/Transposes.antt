-- ===== src/Tests/Transposes.antt =====
-- A transpose that comes in transposed, its inverse, and the inverse of that.
use underling.Common.{◌≡◌, refl, some, arith}
use underling.Machine.{World, ok}
use underling.Machine.Count.{Accounts}
use underling.Error.{reporting}
use underling.Grid.Defs.{releasing}
use underling.Transpose.Defs.{
  Transpose, comm_dup_with_name, is_trivial, with_local, without_local, fix_local, workspace,
  inverse_flags, has_other_flags, create_inverse, destroy,
}
use underling.Transpose.Accounts.{owned?}
use underling.Transpose.Inverse.{AreBits}
use underling.Transpose.Release.{destroy-create_inverse}
use underling.Tests.Worlds.{world, world_of, result_of, constants}
use underling.Tests.Grids.{seventh}

abbrev first : Transpose
first = record {
  block = 7;
  comm = 9;
  d0 = 20;
  d1 = 6;
  howmany = 4;
  block0 = 3;
  block1 = 2;
  flags = 536870912;
  local0 = 20;
  local1 = 6;
  local_start0 = 0;
  local_start1 = 0;
  local_size = 480;
}

abbrev second : Transpose
second = result_of first (create_inverse (some first) world)

abbrev third : Transpose
third = result_of first (create_inverse (some second) world)

abbrev after_second : World
after_second = world_of (create_inverse (some first) world)

abbrev after_third : World
after_third = world_of (create_inverse (some second) world)

abbrev after_destruction : World
after_destruction = world_of (destroy (some second) after_second)

inverted : create_inverse (some first) world ≡ ok (some second) after_second
unfolding create_inverse comm_dup_with_name is_trivial with_local without_local fix_local workspace
    inverse_flags has_other_flags reporting
inverted = refl

inverted_again : create_inverse (some second) world ≡ ok (some third) after_third
unfolding create_inverse comm_dup_with_name is_trivial with_local without_local fix_local workspace
    inverse_flags has_other_flags reporting
inverted_again = refl

destroyed : destroy (some second) after_second ≡ ok tt after_destruction
unfolding destroy create_inverse comm_dup_with_name is_trivial with_local without_local fix_local
    workspace inverse_flags has_other_flags reporting releasing
destroyed = refl

constants-AreBits : AreBits constants
constants-AreBits = record {
  in_in = omega arith;
  out_out = omega arith;
  in_out = refl;
  out_in = refl;
}

destroy-create_inverse_example :
    Accounts seventh world after_second 0 (owned? seventh (some second))
    × Accounts seventh after_second after_destruction (owned? seventh (some second)) 0
    × Accounts seventh world after_destruction 0 0
destroy-create_inverse_example =
    destroy-create_inverse (some first) seventh world after_second after_destruction (some second)
      inverted destroyed
