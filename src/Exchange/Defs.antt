-- ===== src/Exchange/Defs.antt =====
-- What FFTW documents of a transpose that is distributed over the processes of a communicator.
use underling.Common.{ℕ, ◌+◌, ◌-◌, ◌*◌, ◌<◌, ◌≡◌, ◌==◌, ltb, not, bit_and, Bool, if◌then◌else◌}
use underling.Machine.{FftwConstants}
use underling.Transpose.Defs.{Transpose}

-- What process `r` has of `d` rows in blocks of `b`: the last blocks may be short or empty.
abbrev pub part : (d b r : ℕ) → ℕ
part d b r = if ltb (d - r * b) b then d - r * b else b

-- The arguments of a transpose, for which FFTW wants the same values in all processes.
pub record Shape : Type 0 where
  pub d0 : ℕ
  pub d1 : ℕ
  pub howmany : ℕ
  pub block0 : ℕ
  pub block1 : ℕ
  pub flags : ℕ

abbrev pub shape_of : Transpose → Shape
shape_of t = record {
  d0 = t.d0;
  d1 = t.d1;
  howmany = t.howmany;
  block0 = t.block0;
  block1 = t.block1;
  flags = t.flags;
}

abbrev pub has : ℕ → ℕ → Bool
has flags f = not (bit_and flags f == 0)

-- Where the part `h` of the element at local row `a` and column `j` stands in a local block of `rows` rows and
-- `columns` columns: row by row, or, transposed, column by column.
abbrev pub place : (transposed : Bool) → (rows columns howmany a j h : ℕ) → ℕ
place transposed rows columns howmany a j h =
    if transposed then (j * rows + a) * howmany + h else (a * columns + j) * howmany + h

-- The contents of the buffers, by process and address.
abbrev pub Contents : Type 0 → Type 0
Contents V = ℕ → ℕ → V

-- The rows of the matrix are distributed before the transpose, and its columns behind it. The element
-- at row `a` of process `r` and column `c` of process `r'` moves from the one to the other.
pub record Exchanges {V : Type 0} (k : FftwConstants) (s : Shape) (before behind : Contents V)
    : Type 0 where
  pub moves :
      (r r' a c h : ℕ)
      → a < part s.d0 s.block0 r
      → c < part s.d1 s.block1 r'
      → h < s.howmany
      → behind r' (
          place
            (has s.flags k.transposed_out)
            (part s.d1 s.block1 r')
            s.d0
            s.howmany
            c
            (r * s.block0 + a)
            h)
        ≡ before r (
            place
              (has s.flags k.transposed_in)
              (part s.d0 s.block0 r)
              s.d1
              s.howmany
              a
              (r' * s.block1 + c)
              h)
