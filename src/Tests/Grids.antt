-- ===== src/Tests/Grids.antt =====
-- A grid of one process over a domain of 4 by 5 by 6, and two transposes.
use underling.Common.{◌*◌, ◌≤◌, ◌≡◌, refl, ◌↔◌, pos, Option, none, some}
use underling.Machine.Run.{Run}
use underling.Machine.{World, ok, no_error_handler}
use underling.Machine.Comes.{Returning}
use underling.Machine.Count.{Resource, Accounts, block}
use underling.Error.{reporting}
use underling.Grid.Defs.{Grid, releasing}
use underling.Grid.Create.{
  align, check_decomposition, check_arguments, name_comms, split_p_b, split_p_a, make_topology,
  decompose, choose_dims, initial,
}
use underling.Grid.Accounts.{owned}
use underling.Grid.Bounds.{processes, create-Fits}
use underling.Grid.Decomposition.{check_decomposition-none_iff}
use underling.Grid.Returns.{destroy-create_returns}
use underling.Grid.Release.{destroy-create_grid}
use underling.Tests.Worlds.{world, world_of}
use underling.Grid

abbrev pub grid : Grid
grid = record {
  block = 7;
  n0 = 4;
  n1 = 5;
  n2 = 6;
  p_a = 1;
  p_b = 1;
  g_comm = 9;
  p_a_comm = 9;
  p_b_comm = 9;
}

abbrev creation : Run (Option Grid)
creation = Grid.Create.create 3 (pos 4) (pos 5) (pos 6) (pos 0) (pos 0) world

abbrev after_creation : World
after_creation = world_of creation

abbrev after_destruction : World
after_destruction = world_of (Grid.Defs.destroy (some grid) after_creation)

created : creation ≡ ok (some grid) after_creation
unfolding Grid.Create.create check_arguments decompose choose_dims align check_decomposition
    make_topology split_p_a split_p_b name_comms initial reporting
created = refl

destroyed : Grid.Defs.destroy (some grid) after_creation ≡ ok tt after_destruction
unfolding Grid.Create.create check_arguments decompose choose_dims align check_decomposition
    make_topology split_p_a split_p_b name_comms initial reporting releasing
destroyed = refl

create-Fits_example :
    (pos 4 ≡ pos 4)
    × (pos 5 ≡ pos 5)
    × (pos 6 ≡ pos 6)
    × (1 ≤ 4)
    × (1 ≤ 5)
    × (1 ≤ 6)
    × (1 * 1 ≡ processes world 3)
    × (1 ≤ 4)
    × (1 ≤ 5)
    × (1 ≤ 5)
create-Fits_example =
    create-Fits 3 (pos 4) (pos 5) (pos 6) (pos 0) (pos 0) world after_creation grid created

abbrev pub seventh : Resource
seventh = record { kind = block; handle = 7 }

destroy-create_grid_example :
    Accounts seventh world after_creation 0 (owned seventh grid)
    × Accounts seventh after_creation after_destruction (owned seventh grid) 0
    × Accounts seventh world after_destruction 0 0
destroy-create_grid_example =
    destroy-create_grid 3 (pos 4) (pos 5) (pos 6) (pos 0) (pos 0) seventh world after_creation
      after_destruction grid created destroyed

check_decomposition-none_iff_example :
    (check_decomposition grid 1 ≡ none) ↔ ((1 * 1 ≡ 1) × (1 ≤ 4) × (1 ≤ 5) × (1 ≤ 5))
check_decomposition-none_iff_example = check_decomposition-none_iff grid 1

abbrev pub quiet : World
quiet = record world { error_handler = no_error_handler }

pub quiet-Returning : Returning quiet
quiet-Returning = record { set = cc; returns = λ t k reason code. refl }

destroy-create_returns_example :
    (g : Option Grid) × (w1 : World) × (w2 : World) × (Grid.Create.create 3
        (pos 4)
        (pos 5)
        (pos 6)
        (pos 0)
        (pos 0)
        quiet
      ≡ ok g w1)
    × (Grid.Defs.destroy g w1 ≡ ok tt w2)
destroy-create_returns_example =
    destroy-create_returns 3 (pos 4) (pos 5) (pos 6) (pos 0) (pos 0) quiet quiet-Returning
      (record { digits = λ t n. refl; dims = λ t n a b. refl })
