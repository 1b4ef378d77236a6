-- ===== src/Tests/Processes.antt =====
-- Two processes along pA and one along pB, and what their transposes move.
use underling.Common.{
  ℕ, ◌+◌, ◌*◌, ◌/◌, ◌%◌, ◌==◌, ◌<◌, ◌≡◌, refl, sym, ap, List, ◌∷◌, inl, inr, pos, [], Option, none,
  some, if◌then◌else◌, arith,
}
use underling.Machine.Run.{Run}
use underling.Machine.{
  World, Trace, Call, ok, default_handler, malloc, comm_dup, local_size_many_transposed, bcast,
}
use underling.Grid.Defs.{Grid}
use underling.Transpose.Defs.{Transpose}
use underling.Transpose.Inverse.{AreBits}
use underling.Problem.Defs.{Problem}
use underling.Problem.Create.{create}
use underling.Exchange.Defs.{Contents, Exchanges, shape_of, part}
use underling.Exchange.Shares.{Head, Process}
use underling.Exchange.Blocks.{Blocks, Sharing}
use underling.Machine.Sent.{Payload, Among, sent, with_payload}
use mathlib.Core.Path.{subst}
use underling.Tests.Worlds.{constants, world_of, result_of}
use underling.Tests.Problems.{blank_problem, blank_transpose, making}

-- `planes` by 2 by 2: n1 and n2 are shared by two processes along pA.
abbrev pub grid : ℕ → Grid
grid planes = record {
  block = 7;
  n0 = planes;
  n1 = 2;
  n2 = 2;
  p_a = 2;
  p_b = 1;
  g_comm = 1;
  p_a_comm = 2;
  p_b_comm = 3;
}

abbrev pub blocks : ℕ → Blocks
blocks planes = record { n0_b = planes; n1_b = 2; n1_a = 1; n2_a = 1 }

-- The answers to process `rank` along pA, which is the only one along pB.
abbrev pub answers : (planes rank : ℕ) → Trace → Call → ℕ → ℕ
answers planes rank t (malloc s) k = 7
answers planes rank t (comm_dup c) k = 9
answers planes rank t (bcast x y c) k =
    if c == 2 then (if k == 0 then planes * 1 else 1) else (if k == 0 then 1 * planes else 2)
answers planes rank t (local_size_many_transposed d0 d1 howmany b0 b1 c) k =
    if c == 2
    then (if k == 1 then 1 else if k == 2 then rank else if k == 3 then 1 else rank)
    else (if k == 1 then planes else if k == 2 then 0 else if k == 3 then 2 else 0)
answers planes rank t c k = 1

abbrev pub process : (planes rank : ℕ) → World
process planes rank = record {
  env = record { status = λ t c. 0; out = answers planes rank; fftw = constants };
  trace = [];
  error_handler = default_handler;
  stream = 0;
  stream_handler = 0;
  debug_comm = 0;
}

abbrev pub creation : (planes rank : ℕ) → Run (Option Problem)
creation planes rank = create (some (grid planes)) (pos 1) 0 (process planes rank)

abbrev pub problem : (planes rank : ℕ) → Problem
problem planes rank = result_of blank_problem (creation planes rank)

pub sharing :
    (planes rank : ℕ)
    → rank < 2
    → Sharing (process planes rank).env (grid planes) 1 (blocks planes) rank 0
sharing planes rank l = record {
  blocks = record {
    n0_b = omega arith;
    n1_b = omega arith;
    n1_a = omega arith;
    n2_a = omega arith;
  };
  share_b =
      λ t. record { size0 = whole; start0 = λ _. omega arith; size1 = refl; start1 = λ _. refl };
  share_a = λ t. record {
    size0 = ground (arith, l);
    start0 = λ _. omega arith;
    size1 = ground (arith, l);
    start1 = λ _. omega arith;
  };
}
  where
    whole : planes ≡ part planes planes 0
    whole = ground arith

abbrev Created : (planes rank : ℕ) → Type 0
Created planes rank =
    creation planes rank ≡ ok (some (problem planes rank)) (world_of (creation planes rank))

abbrev head :
    (planes rank : ℕ) → rank < 2 → Created planes rank → Head planes 2 2 (blocks planes) rank 0
head planes rank l made = record {
  grid = grid planes;
  howmany = pos 1;
  flags = 0;
  start = process planes rank;
  end = world_of (creation planes rank);
  problem = problem planes rank;
  size0 = refl;
  size1 = refl;
  size2 = refl;
  sharing = sharing planes rank l;
  created = made;
}

only : {x y x' y' : ℕ} (l : List Payload) → l ≡ (x', y') ∷ [] → Among (x, y) l → (x' ≡ x) × (y' ≡ y)
only {x} {y} {x'} {y'} l e h = elim (subst (Among (x, y)) e h) [
  | inl i ↦ (sym (ap (λ (v : Payload). v.0) i), sym (ap (λ (v : Payload). v.1) i))
  | inr i ↦ absurd i
]

documented :
    (planes rank : ℕ)
    → rank < 2
    → (first : Created planes 0) → (made : Created planes rank)
    → sent 2 (world_of (creation planes 0)).trace ≡ (planes * 1, 1) ∷ []
    → sent 3 (world_of (creation planes rank)).trace ≡ (1 * planes, 2) ∷ []
    → Process (process planes rank).env (grid planes) 1 0 (blocks planes) rank 0
documented planes rank l first made by_a by_b = record {
  sharing = sharing planes rank l;
  head_a = head planes 0 (omega arith) first;
  receives_a = record { gives = λ x y h t a b. only _ by_a h };
  head_b = head planes rank l made;
  receives_b = record { gives = λ x y h t a b. only _ by_b h };
}

pub created : creation 2 1 ≡ ok (some (problem 2 1)) (world_of (creation 2 1))
unfolding making
created = refl

pub created_first : creation 2 0 ≡ ok (some (problem 2 0)) (world_of (creation 2 0))
unfolding making
created_first = refl

-- With one plane.
pub created_thin : creation 1 1 ≡ ok (some (problem 1 1)) (world_of (creation 1 1))
unfolding making
created_thin = refl

pub created_thin_first : creation 1 0 ≡ ok (some (problem 1 0)) (world_of (creation 1 0))
unfolding making
created_thin_first = refl

-- The two processes, with two planes and with one.
pub second : Process (process 2 1).env (grid 2) 1 0 (blocks 2) 1 0
unfolding making sent with_payload
second = documented 2 1 (omega arith) created_first created refl refl

pub first : Process (process 2 0).env (grid 2) 1 0 (blocks 2) 0 0
unfolding making sent with_payload
first = documented 2 0 (omega arith) created_first created_first refl refl

pub second_thin : Process (process 1 1).env (grid 1) 1 0 (blocks 1) 1 0
unfolding making sent with_payload
second_thin = documented 1 1 (omega arith) created_thin_first created_thin refl refl

pub first_thin : Process (process 1 0).env (grid 1) 1 0 (blocks 1) 0 0
unfolding making sent with_payload
first_thin = documented 1 0 (omega arith) created_thin_first created_thin_first refl refl

-- The transposes of process 1.
abbrev pub given : Option Transpose → Transpose
given (some t) = t
given none = blank_transpose

abbrev pub backward_a : (planes : ℕ) → Transpose
backward_a planes = given (problem planes 1).backward_a

pub is_a : (problem 2 1).backward_a ≡ some (backward_a 2)
unfolding making
is_a = refl

pub is_a_thin : (problem 1 1).backward_a ≡ some (backward_a 1)
unfolding making
is_a_thin = refl

abbrev pub backward_b : Transpose
backward_b = given (problem 2 1).backward_b

pub is_b : (problem 2 1).backward_b ≡ some backward_b
unfolding making
is_b = refl

abbrev pub forward_a : Transpose
forward_a = given (problem 2 1).forward_a

pub is_forward_a : (problem 2 1).forward_a ≡ some forward_a
unfolding making
is_forward_a = refl

pub bits : AreBits constants
bits = record { in_in = omega arith; out_out = omega arith; in_out = refl; out_in = refl }

-- Every element is a number that tells where it was.
abbrev pub numbered : Contents ℕ
numbered r x = 100 * r + x

-- And where they are behind the transpose along pA.
abbrev pub along_a : Contents ℕ
along_a r x = 100 * (x / 2) + x % 2 * 2 + r

pub moved_a : Exchanges constants (shape_of (backward_a 2)) numbered along_a
unfolding making
moved_a = moved
  where
    moved :
        Exchanges constants
          (record { d0 = 4; d1 = 2; howmany = 1; block0 = 2; block1 = 1; flags = 0 })
          numbered
          along_a
    moved = record { moves = λ r r' a c h la lc lh. ground (arith, la, lc, lh) }

pub moved_back : Exchanges constants (shape_of forward_a) along_a numbered
unfolding making
moved_back = moved
  where
    moved :
        Exchanges constants
          (record { d0 = 2; d1 = 4; howmany = 1; block0 = 1; block1 = 2; flags = 0 })
          along_a
          numbered
    moved = record { moves = λ r r' a c h la lc lh. ground (arith, la, lc, lh) }

-- With one plane: process and address are exchanged.
abbrev pub exchanged : Contents ℕ
exchanged r x = numbered x r

pub moved_thin : Exchanges constants (shape_of (backward_a 1)) numbered exchanged
unfolding making
moved_thin = moved
  where
    moved :
        Exchanges constants
          (record { d0 = 2; d1 = 2; howmany = 1; block0 = 1; block1 = 1; flags = 0 })
          numbered
          exchanged
    moved = record { moves = λ r r' a c h la lc lh. ground (arith, la, lc, lh) }

-- Along pB there is one process.
abbrev pub along_b : Contents ℕ
along_b r x = 100 * r + (x % 2 * 2 + x / 2)

pub moved_b : Exchanges constants (shape_of backward_b) numbered along_b
unfolding making
moved_b = moved
  where
    moved :
        Exchanges constants
          (record { d0 = 2; d1 = 2; howmany = 1; block0 = 2; block1 = 2; flags = 0 })
          numbered
          along_b
    moved = record { moves = λ r r' a c h la lc lh. ground (arith, la, lc, lh) }
