-- ===== src/Bench/Main.antt =====
-- `main` of the benchmark behind the parsing of its options, over the operations of the library.
-- Banners, timings, the files of wisdom, and what is computed of the contents of the fields are
-- left out: they neither take nor give back what the library and the fields need.
pub mod Calls
pub mod Steps
pub mod Accounts
pub mod Sweeps
pub mod Passes
use underling.Common.{
  ℕ, zero, suc, ◌+◌, ◌-◌, ◌*◌, ◌==◌, ◌≤◌, not, ◌&&◌, ◌||◌, Bool, true, false, ℤ, pos, nonneg, List,
  [], ◌∷◌, Option, none, some, is_some, bit_or, ltb, leb, if◌then◌else◌, length,
}
use underling.Machine.{
  M, when◌then◌else◌, pure, halt, ◌>>=◌, ◌>>◌, gets, assert, invoke, perform, fftw_malloc,
  fftw_free, mpi_abort, aborted, out_of_bounds, FftwConstants, allreduce,
}
use underling.Error.{Status}
use underling.Extents.Defs.{Extents}
use underling.FftwExtents.Defs.{Five}
use underling.Grid.Defs.{Grid}
use underling.Problem.Defs.{Problem}
use underling.Problem.Query.{
  local_memory, local_memory_optimum, local_memory_minimum, local_memory_maximum, global_memory,
  global_memory_optimum, local_extents,
}
use underling.Plan.Defs.{
  Plan, execute_long_n2_to_long_n1, execute_long_n1_to_long_n0, execute_long_n0_to_long_n1,
  execute_long_n1_to_long_n2,
}
use underling.Plan.Create.{
  long_n2_to_long_n1, long_n1_to_long_n0, long_n0_to_long_n1, long_n1_to_long_n2,
}
use underling.Fftw.Defs.{FftwPlan}
use underling.Fftw.Create.{create_c2c_forward, create_r2c_forward, create_inverse}
use underling.Init.{init, cleanup}
use underling.Bench.Defs.{Details, Movement, movement_of, extra, add32, truth}
use underling.Bench.Movement.{total}
use underling.Bench.Pass.{turn, planned, moved, numbered, all_at}
use underling.Grid
use underling.Problem
use underling.Plan
use underling.Fftw
use underling.Bench.Buffers.{
  calloc_field, calloc_fields, free_fields, field_at, sweep, Transforms, if_planned, check_fields,
  destroy_transforms, display_memory,
}

module _ {R : Type 0} (d : Details R) where
  abbrev pub m : Movement
  m = movement_of d

  abbrev pub fields : ℕ
  fields = nonneg d.nfields

  -- The buffers that the plan of a transform is made with.
  abbrev pub with_buffers : List ℕ → (ℕ → ℕ → M (Option FftwPlan)) → M (Option FftwPlan)
  with_buffers f make = do
    src ← field_at f 0
    dst ← field_at f (truth (not d.fft_inplace))
    make src dst

  -- The `planner` for one direction, and its inverse.
  unfoldable pub make_forward :
      Option Problem → (i : ℤ) → (letter : ℕ) → (f : List ℕ) → (rigor : ℕ) → M (Option FftwPlan)
  make_forward problem i letter f rigor =
      when letter == b'c'
      then with_buffers f (λ src dst. create_c2c_forward problem i src dst rigor d.packed_flags)
      else when letter == b'r'
      then with_buffers f (λ src dst. create_r2c_forward problem i src dst rigor d.packed_flags)
      else pure none

  -- The body of `if (d.forward)`.
  unfoldable pub go_forward : Option Plan → Transforms → (f : List ℕ) → M (Unit {0})
  go_forward t_plan forward f = do
    let o0 = numbered fields (λ j. 0)
    if_planned forward.plan2 λ op. sweep op f o0 m.m0 fields fields
    let o1 = if is_some forward.plan2 then moved m.m0 fields o0 else o0
    sweep (execute_long_n2_to_long_n1 t_plan) f o1 m.m1 fields fields
    let o2 = moved m.m1 fields o1
    if_planned forward.plan1 λ op. sweep op f o2 m.m2 fields fields
    let o3 = moved m.m2 fields o2
    sweep (execute_long_n1_to_long_n0 t_plan) f o3 m.m3 fields fields
    let o4 = moved m.m3 fields o3
    if_planned forward.plan0 λ op. sweep op f o4 m.m4 fields fields

  -- The body of `if (d.backward)`.
  unfoldable pub go_backward : Option Plan → Transforms → (f : List ℕ) → M (Unit {0})
  go_backward t_plan backward f = do
    let o0 = all_at (total m) fields (λ j. 0)
    if_planned backward.plan0 λ op. sweep op f o0 m.m5 fields fields
    let o1 = if is_some backward.plan0 then moved m.m5 fields o0 else o0
    sweep (execute_long_n0_to_long_n1 t_plan) f o1 m.m6 fields fields
    let o2 = moved m.m6 fields o1
    if_planned backward.plan1 λ op. sweep op f o2 m.m7 fields fields
    let o3 = moved m.m7 fields o2
    sweep (execute_long_n1_to_long_n2 t_plan) f o3 m.m8 fields fields
    let o4 = moved m.m8 fields o3
    if_planned backward.plan2 λ op. sweep op f o4 m.m9 fields fields

  -- The main loop.
  unfoldable pub main_loop :
      (repeat : ℕ) → Option Plan → (forward backward : Transforms) → (f : List ℕ) → M (Unit {0})
  main_loop zero t_plan forward backward f = pure tt
  main_loop (suc n) t_plan forward backward f = do
    when d.forward then go_forward t_plan forward f else pure tt
    when d.backward then go_backward t_plan backward f else pure tt
    main_loop n t_plan forward backward f

  unfoldable pub check_round_trip : Option Problem → (local_memory : ℕ) → M (Unit {0})
  check_round_trip problem memory =
      when not (nonneg d.repeat == 0) && d.forward && d.backward
      then check_fields problem memory fields >> perform (allreduce "MPI_MAXLOC" 0 0)
      else pure tt

  module _ (memcmp : Five → Five → ℤ) where
    unfoldable pub make_backward : Option FftwPlan → (f : List ℕ) → M (Option FftwPlan)
    make_backward forward f =
        when d.backward && is_some forward
        then with_buffers f (λ src dst. create_inverse memcmp forward src dst d.fftw_rigor_flags)
        else pure none

    -- From the transpose plan to the destruction of the plans; `p0`, `p1` and `p2` are the buffers
    -- that the plans are made with.
    unfoldable pub run_plans : Option Problem → (local_memory : ℕ) → List ℕ → M (Unit {0})
    run_plans problem memory f = do
      p ← field_at f 0
      p_mpi ← field_at f (truth (not d.mpi_inplace))
      t_plan ←
          Plan.Create.create problem p p_mpi
            (bit_or d.transform_flags (
              bit_or (if d.forward then bit_or long_n2_to_long_n1 long_n1_to_long_n0 else 0)
                (if d.backward then bit_or long_n0_to_long_n1 long_n1_to_long_n2 else 0)))
            d.fftw_rigor_flags
      k ← gets (λ w. w.env.fftw)
      let rigor = if d.forward then d.fftw_rigor_flags else k.estimate
      forward2 ← make_forward problem (pos 2) d.fft_n2 f rigor
      backward2 ← make_backward forward2 f
      forward1 ← make_forward problem (pos 1) d.fft_n1 f rigor
      backward1 ← make_backward forward1 f
      forward0 ← make_forward problem (pos 0) d.fft_n0 f rigor
      backward0 ← make_backward forward0 f
      let forward : Transforms = record { plan0 = forward0; plan1 = forward1; plan2 = forward2 }
      let backward : Transforms = record { plan0 = backward0; plan1 = backward1; plan2 = backward2 }
      main_loop (nonneg d.repeat) t_plan forward backward f
      check_round_trip problem memory
      free_fields f
      destroy_transforms backward
      destroy_transforms forward
      Plan.Defs.destroy t_plan

    unfoldable pub run_problem : Option Grid → M (Unit {0})
    run_problem grid = do
      problem ← Problem.Create.create grid d.howmany d.transposed_flags
      assert (is_some grid)
      memory ← local_memory problem
      display_memory grid problem
      f ← calloc_fields (fields + extra m) (memory * 8)
      run_plans problem memory f
      Problem.Defs.destroy problem

    unfoldable pub run_grid : (world : ℕ) → M (Unit {0})
    run_grid world =
        when not (nonneg d.n0 == 0) && not (nonneg d.n1 == 0) && not (nonneg d.n2 == 0)
        then (do
          grid ← Grid.Create.create world d.n0 d.n1 d.n2 d.p_a d.p_b
          assert (is_some grid)
          Grid.Defs.p_a_size grid
          Grid.Defs.p_b_size grid
          run_problem grid
          Grid.Defs.destroy grid)
        else (perform mpi_abort >> halt aborted)

module _ {R : Type 0} (memcmp : Five → Five → ℤ) (cube : Details R → ℤ) (threads : Bool) where
  -- With the size from the memory for each rank, where one is given, and what `atexit` has been told.
  unfoldable pub main : (world : ℕ) → Details R → M (Unit {0})
  main world d = do
    init threads d.nthreads
    let size = cube d
    let sized = record d { n0 = size; n1 = size; n2 = size }
    run_grid (if nonneg d.bytes == 0 then d else sized) memcmp world
    cleanup threads
