-- ===== src/Tests/Exchanges.antt =====
-- What two processes exchange, and what a problem restores and agrees on.
use underling.Common.{ℕ, ◌+◌, ◌*◌, ◌≡◌, ◌↔◌, refl, inl, pos, arith}
use underling.Extents.Defs.{Four, four}
use underling.Exchange.Defs.{shape_of}
use underling.Exchange.RoundTrip.{Restored}
use underling.Exchange.Shapes.{shape?}
use underling.Exchange.Restores.{create-restores}
use underling.Exchange.Agree.{create-agree}
use underling.Exchange.AlongA.{create-lands_a, landed_a, described_a, source_a}
use underling.Exchange.AlongB.{create-lands_b, landed_b, described_b, source_b, row_b}
use underling.Exchange.AlongA
use underling.Exchange.AlongB
use underling.Exchange.Places.{address_of}
use underling.Tests.Worlds.{constants, world_of}
use underling.Tests.Problems.{making}
use underling.Tests.Processes.{
  grid, blocks, process, creation, problem, second, first, created, created_first, backward_a, is_a,
  backward_b, is_b, forward_a, is_forward_a, bits, numbered, along_a, moved_a, moved_back, along_b,
  moved_b,
}

-- The second plane of process 1, for process 0.
abbrev element : Four
element = four 1 0 0 0

element-IsLocal : AlongA.IsLocal (problem 2 1).long_n2 (problem 2 0).long_n1 element
unfolding making
element-IsLocal = record {
  in0 = omega arith;
  in1 = omega arith;
  in2 = omega arith;
  in3 = omega arith;
}

create-lands_a_example :
    (along_a 0 (landed_a (problem 2 1).long_n2 2 element)
      ≡ numbered 1 (address_of (problem 2 1).long_n2 (source_a (problem 2 0).long_n1 element)))
    × ((landed_a (problem 2 1).long_n2 2 element
          ≡ address_of (problem 2 0).long_n1 (described_a (problem 2 1).long_n2 element))
        ↔ ((problem 2 1).long_n2.size.i0 * (problem 2 1).long_n2.start.i1
              + 1 * (problem 2 1).long_n2.size.i1
            ≡ 1 * 2 + (problem 2 1).long_n2.start.i1))
create-lands_a_example =
    create-lands_a (grid 2) (grid 2) (pos 1) 0 (blocks 2) (process 2 1) (world_of (creation 2 1))
      (process 2 0) (world_of (creation 2 0)) (problem 2 1) (problem 2 0) refl refl refl created
      created_first 1 0 0 second first (backward_a 2) numbered along_a bits is_a moved_a element
      element-IsLocal

pub one_plane : (problem 1 1).long_n2.size.i0 ≡ 1
unfolding making
one_plane = refl

element-IsLocal_b : AlongB.IsLocal (problem 2 1).long_n1 (problem 2 1).long_n0 element
unfolding making
element-IsLocal_b = record {
  in0 = omega arith;
  in1 = omega arith;
  in2 = omega arith;
  in3 = omega arith;
}

create-lands_b_example :
    (along_b 0 (landed_b 0 (problem 2 1).long_n1 (problem 2 1).long_n0 2 element)
      ≡ numbered 0 (address_of (problem 2 1).long_n1 (source_b (problem 2 1).long_n0 element)))
    × ((landed_b 0 (problem 2 1).long_n1 (problem 2 1).long_n0 2 element
          ≡ address_of (problem 2 1).long_n0 (described_b (problem 2 1).long_n1 element))
        ↔ (0 * ((problem 2 1).long_n1.size.i2 * 2) + row_b (problem 2 1).long_n1 element
            ≡ (0 * (problem 2 1).long_n1.size.i2 + 0) * 2 + ((problem 2 1).long_n1.start.i0 + 1)))
create-lands_b_example =
    create-lands_b (grid 2) (grid 2) (pos 1) 0 (blocks 2) (process 2 1) (world_of (creation 2 1))
      (process 2 1) (world_of (creation 2 1)) (problem 2 1) (problem 2 1) refl refl refl created
      created 1 0 0 second second backward_b numbered along_b bits is_b moved_b element
      element-IsLocal_b

create-restores_example : Restored constants (shape_of (backward_a 2)) numbered numbered
create-restores_example =
    create-restores (grid 2) (pos 1) 0 (process 2 1) (world_of (creation 2 1)) (problem 2 1)
      (backward_a 2) forward_a numbered along_a numbered bits created (inl (is_a, is_forward_a))
      moved_a moved_back

create-agree_example :
    (◌≡◌ {A = ℕ} 0 0
      → (shape? (problem 2 1).backward_a ≡ shape? (problem 2 0).backward_a)
        × (shape? (problem 2 1).forward_a ≡ shape? (problem 2 0).forward_a))
    × (◌≡◌ {A = ℕ} 1 0
        → (shape? (problem 2 1).backward_b ≡ shape? (problem 2 0).backward_b)
          × (shape? (problem 2 1).forward_b ≡ shape? (problem 2 0).forward_b))
create-agree_example =
    create-agree (grid 2) (grid 2) (pos 1) 0 (blocks 2) (process 2 1) (world_of (creation 2 1))
      (process 2 0) (world_of (creation 2 0)) (problem 2 1) (problem 2 0) refl refl refl refl
      created created_first 1 0 0 0 second first
