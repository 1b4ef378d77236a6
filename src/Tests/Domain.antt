-- ===== src/Tests/Domain.antt =====
-- The pencils of the two processes of Tests.Processes, and both transposes of one plane.
use underling.Common.{ℕ, ◌+◌, ◌*◌, ◌/◌, ◌%◌, ◌≤◌, ◌≡◌, ◌↔◌, refl, inl, pos, some, arith}
use underling.Machine.{ok}
use underling.Extents.Defs.{Four, four}
use underling.Transpose.Defs.{Transpose}
use underling.Exchange.Defs.{Exchanges, shape_of}
use underling.Exchange.Partition.{Holds, ArePositive, create-partitions}
use underling.Exchange.Places.{address_of}
use underling.Exchange.Sends.{SendsBlocks, create-sends}
use underling.Exchange.Shares.{Process}
use underling.Exchange.Through.{Member, All, local, create-carries}
use underling.Exchange.Back.{create-carries_back}
use underling.Exchange.Returns.{create-returns}
use underling.Tests.Worlds.{constants, world_of}
use underling.Tests.Problems.{making}
use underling.Tests.Exchanges.{one_plane}
use underling.Tests.Processes.{
  grid, blocks, process, sharing, creation, problem, second, first, second_thin, first_thin,
  created, created_first, along_a, forward_a, is_a, is_forward_a, moved_a, moved_back, created_thin,
  created_thin_first, given, backward_a, is_a_thin, bits, numbered, exchanged, moved_thin,
}

abbrev corner : Four
corner = four 1 1 0 0

blocks-ArePositive : (planes : ℕ) → 1 ≤ planes → ArePositive (blocks planes)
blocks-ArePositive planes l = record {
  n0_b = l;
  n1_b = omega arith;
  n1_a = omega arith;
  n2_a = omega arith;
}

create-partitions_example :
    (Holds (problem 2 1).long_n2 corner ↔ ((◌≡◌ {A = ℕ} 1 (1 / 1)) × (◌≡◌ {A = ℕ} 0 (1 / 2))))
    × (Holds (problem 2 1).long_n1 corner ↔ ((◌≡◌ {A = ℕ} 1 (0 / 1)) × (◌≡◌ {A = ℕ} 0 (1 / 2))))
    × (Holds (problem 2 1).long_n0 corner ↔ ((◌≡◌ {A = ℕ} 1 (0 / 1)) × (◌≡◌ {A = ℕ} 0 (1 / 2))))
create-partitions_example =
    create-partitions (grid 2) (pos 1) 0 (blocks 2) 1 0 (process 2 1) (world_of (creation 2 1))
      (problem 2 1) corner second (blocks-ArePositive 2 (omega arith)) created
      (omega arith, omega arith, omega arith)

-- Process `rank` of the two.
abbrev member :
    (planes rank : ℕ)
    → Process (process planes rank).env (grid planes) 1 0 (blocks planes) rank 0
    → creation planes rank ≡ ok (some (problem planes rank)) (world_of (creation planes rank))
    → Member planes 2 2 (pos 1) 0 (blocks planes) rank 0
member planes rank d made = record {
  grid = grid planes;
  start = process planes rank;
  end = world_of (creation planes rank);
  problem = problem planes rank;
  size0 = refl;
  size1 = refl;
  size2 = refl;
  process = d;
  created = made;
}

abbrev before : All ℕ
before r s = numbered r

abbrev behind : All ℕ
behind r s = exchanged r

abbrev backward_b_thin : Transpose
backward_b_thin = given (problem 1 0).backward_b

is_b_thin : (problem 1 0).backward_b ≡ some backward_b_thin
unfolding making
is_b_thin = refl

stays : Exchanges constants (shape_of backward_b_thin) (behind 0) (behind 0)
unfolding making
stays = moved
  where
    moved :
        Exchanges constants
          (record { d0 = 1; d1 = 2; howmany = 1; block0 = 1; block1 = 2; flags = 0 })
          (behind 0)
          (behind 0)
    moved = record { moves = λ r r' a c h la lc lh. ground (arith, la, lc, lh) }

one_row : (problem 1 0).long_n1.size.i2 ≡ 1
unfolding making
one_row = refl

-- The second row, which process 1 has in n2 and process 0 in n1 and n0.
abbrev row : Four
row = four 0 1 0 0

create-sends_example :
    SendsBlocks (grid 2) (blocks 2) 1 0 (some (problem 2 1)) (world_of (creation 2 1)).trace
create-sends_example =
    create-sends (grid 2) (pos 1) 0 (blocks 2) 1 0 (process 2 1) (world_of (creation 2 1))
      (problem 2 1) (sharing 2 1 (omega arith)) created

create-carries_example :
    behind 0 0 (address_of (problem 1 0).long_n0 (local (problem 1 0).long_n0 row))
    ≡ before 1 0 (address_of (problem 1 1).long_n2 (local (problem 1 1).long_n2 row))
create-carries_example =
    create-carries row (member 1 1 second_thin created_thin)
      (member 1 0 first_thin created_thin_first) (member 1 0 first_thin created_thin_first) before
      behind behind (backward_a 1) backward_b_thin (blocks-ArePositive 1 (omega arith))
      (omega arith, omega arith, omega arith) (omega arith) bits bits is_a_thin is_b_thin moved_thin
      stays (inl one_plane) (inl one_row)

abbrev forward_b_thin : Transpose
forward_b_thin = given (problem 1 0).forward_b

is_forward_b_thin : (problem 1 0).forward_b ≡ some forward_b_thin
unfolding making
is_forward_b_thin = refl

abbrev forward_a_thin : Transpose
forward_a_thin = given (problem 1 1).forward_a

is_forward_a_thin : (problem 1 1).forward_a ≡ some forward_a_thin
unfolding making
is_forward_a_thin = refl

stays_back : Exchanges constants (shape_of forward_b_thin) (behind 0) (behind 0)
unfolding making
stays_back = moved
  where
    moved :
        Exchanges constants
          (record { d0 = 2; d1 = 1; howmany = 1; block0 = 2; block1 = 1; flags = 0 })
          (behind 0)
          (behind 0)
    moved = record { moves = λ r r' a c h la lc lh. ground (arith, la, lc, lh) }

thin_back : Exchanges constants (shape_of forward_a_thin) exchanged numbered
unfolding making
thin_back = moved
  where
    moved :
        Exchanges constants
          (record { d0 = 2; d1 = 2; howmany = 1; block0 = 1; block1 = 1; flags = 0 })
          exchanged
          numbered
    moved = record { moves = λ r r' a c h la lc lh. ground (arith, la, lc, lh) }

create-carries_back_example :
    before 1 0 (address_of (problem 1 1).long_n2 (local (problem 1 1).long_n2 row))
    ≡ behind 0 0 (address_of (problem 1 0).long_n0 (local (problem 1 0).long_n0 row))
create-carries_back_example =
    create-carries_back row (member 1 1 second_thin created_thin)
      (member 1 0 first_thin created_thin_first) (member 1 0 first_thin created_thin_first) behind
      behind before (backward_a 1) forward_a_thin backward_b_thin forward_b_thin
      (blocks-ArePositive 1 (omega arith)) (omega arith, omega arith, omega arith) (omega arith)
      bits bits (is_a_thin, is_forward_a_thin) (is_b_thin, is_forward_b_thin) stays_back thin_back
      (inl one_plane) (inl one_row)

-- With two planes, both of process 0 along pB.
abbrev along : All ℕ
along r s = along_a r

abbrev turned : All ℕ
turned r s x = along_a r (x % 2 * 2 + x / 2)

abbrev backward_b_first : Transpose
backward_b_first = given (problem 2 0).backward_b

abbrev forward_b_first : Transpose
forward_b_first = given (problem 2 0).forward_b

is_b_first :
    ((problem 2 0).backward_b ≡ some backward_b_first)
    × ((problem 2 0).forward_b ≡ some forward_b_first)
unfolding making
is_b_first = (refl, refl)

turns : Exchanges constants (shape_of backward_b_first) (along 0) (turned 0)
unfolding making
turns = moved
  where
    moved :
        Exchanges constants
          (record { d0 = 2; d1 = 2; howmany = 1; block0 = 2; block1 = 2; flags = 0 })
          (along 0)
          (turned 0)
    moved = record { moves = λ r r' a c h la lc lh. ground (arith, la, lc, lh) }

turns_back : Exchanges constants (shape_of forward_b_first) (turned 0) (along 0)
unfolding making
turns_back = moved
  where
    moved :
        Exchanges constants
          (record { d0 = 2; d1 = 2; howmany = 1; block0 = 2; block1 = 2; flags = 0 })
          (turned 0)
          (along 0)
    moved = record { moves = λ r r' a c h la lc lh. ground (arith, la, lc, lh) }

create-returns_example :
    before 1 0 (address_of (problem 2 1).long_n2 (local (problem 2 1).long_n2 corner))
    ≡ before 1 0 (address_of (problem 2 1).long_n2 (local (problem 2 1).long_n2 corner))
create-returns_example =
    create-returns corner (member 2 1 second created) (member 2 0 first created_first) before along
      turned along before (backward_a 2) forward_a backward_b_first forward_b_first
      (blocks-ArePositive 2 (omega arith)) (omega arith, omega arith, omega arith) (omega arith)
      bits bits (is_a, is_forward_a) is_b_first moved_a turns turns_back moved_back
