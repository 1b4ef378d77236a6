-- ===== src/Problem/Defs.antt =====
-- The problem's data, and the three layouts of the local data as pure functions.
use underling.Common.{
  ℕ, ◌*◌, ◌==◌, ltb, not, ◌&&◌, Bool, bit_and, Option, none, some, if◌then◌else◌,
}
use underling.Machine.{M, Reply, pure, ◌>>◌, perform, free}
use underling.Extents.Defs.{Four, four, Extents, invalid, finish, fits_int, int_bound}
use underling.Grid.Defs.{Grid}
use underling.Transpose
use underling.Transpose.Defs.{Transpose}

-- `struct underling_problem_s`, with the address of its memory block.
pub record Problem : Type 0 where
  pub block : ℕ
  pub howmany : ℕ
  pub long_n0 : Extents
  pub long_n1 : Extents
  pub long_n2 : Extents
  pub backward_a : Option Transpose
  pub backward_b : Option Transpose
  pub forward_b : Option Transpose
  pub forward_a : Option Transpose
  pub local_memory : ℕ

-- `UNDERLING_TRANSPOSED_LONG_N2` and `UNDERLING_TRANSPOSED_LONG_N0` of underling/underling.h.
abbrev pub transposed_long_n2 : ℕ
transposed_long_n2 = 16

abbrev pub transposed_long_n0 : ℕ
transposed_long_n0 = 32

abbrev pub has_flag : ℕ → ℕ → Bool
has_flag flags f = not (bit_and flags f == 0)

-- A part of a direction that FFTW gives to this process.
pub record Share : Type 0 where
  pub size : ℕ
  pub start : ℕ

-- The two shares of a decomposition, from the outputs of `fftw_mpi_local_size_many_transposed`.
unfoldable pub first_share : Reply → Share
first_share r = record { size = r.out 1; start = r.out 2 }

unfoldable pub second_share : Reply → Share
second_share r = record { size = r.out 3; start = r.out 4 }

-- `assert(x <= INT_MAX)` for the four outputs.
unfoldable pub share_fits : Reply → Bool
share_fits r =
    ltb (r.out 1) int_bound
    && ltb (r.out 2) int_bound
    && ltb (r.out 3) int_bound
    && ltb (r.out 4) int_bound

-- The stride orders, fastest direction first.
unfoldable pub order_long_n2 : ℕ → Four
order_long_n2 flags = if has_flag flags transposed_long_n2 then four 3 1 0 2 else four 3 2 1 0

unfoldable pub order_long_n1 : Four
order_long_n1 = four 3 1 0 2

unfoldable pub order_long_n0 : ℕ → Four
order_long_n0 flags = if has_flag flags transposed_long_n0 then four 3 2 1 0 else four 3 0 2 1

-- Start, size and order before the strides are computed.
unfoldable pub unfinished : (start size order : Four) → Extents
unfinished start size order = record invalid { start = start; size = size; order = order }

-- Long in n2: n0 is decomposed over pB and n1 over pA.
unfoldable pub layout_n2 : Grid → ℕ → ℕ → (b0 a0 : Share) → Extents
layout_n2 g howmany flags b0 a0 =
    unfinished (four b0.start a0.start 0 0) (four b0.size a0.size g.n2 howmany)
      (order_long_n2 flags)

-- Long in n1: n2 is decomposed over pA and n0 over pB.
unfoldable pub layout_n1 : Grid → ℕ → (b0 a1 : Share) → Extents
layout_n1 g howmany b0 a1 =
    unfinished (four b0.start 0 a1.start 0) (four b0.size g.n1 a1.size howmany) order_long_n1

-- Long in n0: n1 is decomposed over pB and n2 over pA.
unfoldable pub layout_n0 : Grid → ℕ → ℕ → (b1 a1 : Share) → Extents
layout_n0 g howmany flags b1 a1 =
    unfinished (four 0 b1.start a1.start 0) (four g.n0 b1.size a1.size howmany)
      (order_long_n0 flags)

-- The problem in a fresh block, with its layouts finished and no transposes yet.
unfoldable pub laid_out : (p : ℕ) → Grid → (howmany flags : ℕ) → (lB lA : Reply) → Problem
laid_out p g howmany flags lB lA = record {
  block = p;
  howmany = howmany;
  long_n0 = finish (layout_n0 g howmany flags (second_share lB) (second_share lA));
  long_n1 = finish (layout_n1 g howmany (first_share lB) (second_share lA));
  long_n2 = finish (layout_n2 g howmany flags (first_share lB) (first_share lA));
  backward_a = none;
  backward_b = none;
  forward_b = none;
  forward_a = none;
  local_memory = 0;
}

-- The `int` products of the layouts and of the transposes' sizes and blocks do not overflow.
unfoldable pub products_fit : Grid → Problem → Bool
products_fit g p =
    fits_int p.long_n0
    && fits_int p.long_n1
    && fits_int p.long_n2
    && ltb (p.long_n2.size.i0 * g.n1) int_bound
    && ltb (p.long_n2.size.i0 * p.long_n2.size.i1) int_bound
    && ltb (p.long_n1.size.i2 * g.n0) int_bound
    && ltb (p.long_n1.size.i2 * p.long_n1.size.i0) int_bound

-- `underling_problem_destroy`.
unfoldable pub destroy : Option Problem → M (Unit {0})
destroy none = pure tt
destroy (some p) = do
  Transpose.Defs.destroy p.backward_a
  Transpose.Defs.destroy p.backward_b
  Transpose.Defs.destroy p.forward_b
  Transpose.Defs.destroy p.forward_a
  perform (free p.block)
