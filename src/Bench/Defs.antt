-- ===== src/Bench/Defs.antt =====
-- `struct details`, and the C arithmetic that the benchmark does on words of 32 bits.
use underling.Common.{
  ℕ, ℤ, ◌+◌, ◌-◌, ◌%◌, ◌^◌, ◌==◌, Bool, true, false, not, ◌&&◌, ◌||◌, pos, Option, none, String,
  bit_xor,
}

-- `struct details`; `R` stands for `double`. The members that only ever hold 0 or 1 are Boolean, and
-- the letters of `fft_n` are character codes.
pub record Details (R : Type 0) : Type 0 where
  pub world_rank : ℕ
  pub world_size : ℕ
  pub verbose : ℕ
  pub repeat : ℤ
  pub nfields : ℤ
  pub howmany : ℤ
  pub nthreads : ℤ
  pub n0 : ℤ
  pub n1 : ℤ
  pub n2 : ℤ
  pub p_a : ℤ
  pub p_b : ℤ
  pub bytes : ℤ
  pub transposed_flags : ℕ
  pub transform_flags : ℕ
  pub fftw_rigor_flags : ℕ
  pub packed_flags : ℕ
  pub wisdom_file : Option String
  pub fft_n0 : ℕ
  pub fft_n1 : ℕ
  pub fft_n2 : ℕ
  pub mpi_inplace : Bool
  pub fft_inplace : Bool
  pub forward : Bool
  pub backward : Bool
  pub abstol : R

-- An `int` as a bit pattern: addition and the unary minus.
abbrev pub add32 : ℕ → ℕ → ℕ
add32 a b = (a + b) % 2 ^ 32

abbrev pub neg32 : ℕ → ℕ
neg32 a = (2 ^ 32 - a) % 2 ^ 32

abbrev pub truth : Bool → ℕ
truth true = 1
truth false = 0

-- The array `m`: by how many buffers each of the ten operations moves a field.
pub record Movement : Type 0 where
  pub m0 : ℕ
  pub m1 : ℕ
  pub m2 : ℕ
  pub m3 : ℕ
  pub m4 : ℕ
  pub m5 : ℕ
  pub m6 : ℕ
  pub m7 : ℕ
  pub m8 : ℕ
  pub m9 : ℕ

-- `(out ^ -s) + s`.
abbrev pub conditional_negate : ℕ → ℕ → ℕ
conditional_negate out s = add32 (bit_xor out (neg32 s)) s

-- The block that fills `m`, from the five conditions on which an operation leaves its buffer.
unfoldable pub movement : (fft2 mpi fft1 fft0 : Bool) → Movement
movement fft2 mpi fft1 fft0 =
    let m0 = truth fft2 in
    let m1 = conditional_negate (truth mpi) m0 in
    let s1 = add32 m0 m1 in
    let m2 = conditional_negate (truth fft1) s1 in
    let s2 = add32 s1 m2 in
    let m3 = conditional_negate (truth mpi) s2 in
    let s3 = add32 s2 m3 in
    let m4 = conditional_negate (truth fft0) s3 in
    record {
      m0 = m0;
      m1 = m1;
      m2 = m2;
      m3 = m3;
      m4 = m4;
      m5 = neg32 m4;
      m6 = neg32 m3;
      m7 = neg32 m2;
      m8 = neg32 m1;
      m9 = neg32 m0;
    }

module _ {R : Type 0} where
  -- `!(d.fft_n[i] == 'i' || d.fft_inplace)`, for the letter of direction i.
  abbrev pub leaves : Details R → ℕ → Bool
  leaves d letter = not (letter == b'i' || d.fft_inplace)

  unfoldable pub movement_of : Details R → Movement
  movement_of d =
      movement (leaves d d.fft_n2) (not d.mpi_inplace) (leaves d d.fft_n1) (leaves d d.fft_n0)

-- `extra`: whether one more buffer is allocated.
unfoldable pub extra : Movement → ℕ
extra m = truth (not (m.m0 == 0 && m.m1 == 0 && m.m2 == 0 && m.m3 == 0 && m.m4 == 0 && m.m5 == 0))

-- What `main` sets before it reads the options; `minus_one` is the `double`.
unfoldable pub defaults : {R : Type 0} (world_rank world_size : ℕ) (minus_one : R) → Details R
defaults world_rank world_size minus_one = record {
  world_rank = world_rank;
  world_size = world_size;
  verbose = 0;
  repeat = pos 1;
  nfields = pos 1;
  howmany = pos 2;
  nthreads = pos 0;
  n0 = pos 0;
  n1 = pos 0;
  n2 = pos 0;
  p_a = pos 0;
  p_b = pos 0;
  bytes = pos 0;
  transposed_flags = 0;
  transform_flags = 0;
  fftw_rigor_flags = 0;
  packed_flags = 0;
  wisdom_file = none;
  fft_n0 = b'i';
  fft_n1 = b'i';
  fft_n2 = b'i';
  mpi_inplace = false;
  fft_inplace = false;
  forward = true;
  backward = true;
  abstol = minus_one;
}
