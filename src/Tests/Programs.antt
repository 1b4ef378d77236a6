-- ===== src/Tests/Programs.antt =====
-- A benchmark from its start to its end.
use underling.Common.{ℕ, ◌≡◌, refl, true, false, pos, none}
use underling.Machine.Run.{Run}
use underling.Machine.{ok}
use underling.Machine.Count.{Accounts}
use underling.Init.{
  init, cleanup, init_threads, choose_threads, plan_with, init_fftw, only_init, only_cleanup,
}
use underling.Plan
use underling.Fftw
use underling.Problem
use underling.Grid
use underling.Transpose
use underling.Grid.Create.{
  align, check_decomposition, check_arguments, name_comms, split_p_b, split_p_a, make_topology,
  decompose, choose_dims, initial,
}
use underling.Bench.Defs.{Details, movement, movement_of, extra}
use underling.Bench.Pass.{loop}
use underling.Bench.Main.{
  make_forward, make_backward, go_forward, go_backward, main_loop, check_round_trip, run_plans,
  run_problem, run_grid, main,
}
use underling.Bench.Buffers.{
  calloc_field, calloc_fields, free_fields, field_at, sweep, check_fields, destroy_transforms,
  display_memory,
}
use underling.Bench.Main.Accounts.{main-balances}
use underling.Tests.Worlds.{world, world_of}
use underling.Tests.Grids.{seventh}
use underling.Tests.Layouts.{memcmp5}
use underling.Tests.Transforms.{transforming}

-- Two complex directions and a real one, with one field and everything out of place.
abbrev pub details : Details ℕ
details = record {
  world_rank = 0;
  world_size = 1;
  verbose = 0;
  repeat = pos 1;
  nfields = pos 1;
  howmany = pos 2;
  nthreads = pos 0;
  n0 = pos 4;
  n1 = pos 5;
  n2 = pos 6;
  p_a = pos 0;
  p_b = pos 0;
  bytes = pos 0;
  transposed_flags = 0;
  transform_flags = 0;
  fftw_rigor_flags = 0;
  packed_flags = 0;
  wisdom_file = none;
  fft_n0 = b'i';
  fft_n1 = b'i';
  fft_n2 = b'c';
  mpi_inplace = false;
  fft_inplace = true;
  forward = true;
  backward = true;
  abstol = 0;
}

abbrev run : Run (Unit {0})
run = main memcmp5 (λ d. pos 0) true 3 details world

-- What `main` is made of.
unfoldable program : Unit {0}
unfolding transforming main run_grid run_problem run_plans display_memory calloc_fields calloc_field
    free_fields field_at sweep make_forward make_backward go_forward go_backward main_loop
    check_fields check_round_trip destroy_transforms movement_of movement extra loop init cleanup
    init_threads choose_threads plan_with init_fftw only_init only_cleanup Grid.Create.create
    check_arguments decompose choose_dims align check_decomposition make_topology split_p_a
    split_p_b name_comms initial Grid.Defs.destroy Grid.Defs.releasing Problem.Defs.destroy
    Problem.Query.local_memory Problem.Query.local_memory_optimum Problem.Query.local_memory_minimum
    Problem.Query.local_memory_maximum Problem.Query.global_memory
    Problem.Query.global_memory_optimum Problem.Query.int_mul Problem.Query.local_memory_allreduce
    Plan.Create.create Plan.Create.non_rigor_mask Plan.Create.check_arguments
    Plan.Create.effective_flags Plan.Create.debug_dump Plan.Create.plan_direction
    Plan.Create.plan_forward Plan.Create.plan_backward Plan.Create.initial Plan.Create.given
    Plan.Defs.destroy Plan.Defs.execute Plan.Defs.check_buffers Plan.Defs.execute_long_n2_to_long_n1
    Plan.Defs.execute_long_n1_to_long_n0 Plan.Defs.execute_long_n0_to_long_n1
    Plan.Defs.execute_long_n1_to_long_n2 Fftw.Defs.execute Fftw.Defs.check_execution
    Fftw.Defs.reorder Fftw.Defs.transform Fftw.Defs.destroy Transpose.Defs.fftw_plan
    Transpose.Defs.destroy Fftw.Create.create_c2c_forward
program = tt

comes_to_its_end : run ≡ ok tt (world_of run)
unfolding program underling.Grid.Defs.p_a_size underling.Grid.Defs.size_of
    underling.Grid.Defs.p_b_size
comes_to_its_end = refl

main-balances_example : Accounts seventh world (world_of run) 0 0
main-balances_example =
    main-balances seventh memcmp5 (λ d. pos 0) true 3 details world (world_of run) (λ t a b c. refl)
      comes_to_its_end
