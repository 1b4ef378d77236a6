-- ===== src/Tests/Benchmarks.antt =====
-- Fields of numbers in the buffers of the benchmark, command lines, and texts.
use underling.Common.{
  ℕ, suc, ◌+◌, ◌*◌, ◌/◌, ◌^◌, ℤ, if◌then◌else◌, ◌≤◌, ◌≡◌, refl, ◌==◌, true, false, pos, [], ◌∷◌,
  none, some, arith, inl, inr,
}
use underling.Bench.Defs.{Details, movement_of, defaults}
use underling.Bench.Movement.{Stays, movement_of-Stays}
use underling.Bench.Pass.{
  Operation, Buffers, Operations, backward_pass, iterations, transform, start_forward,
}
use underling.Bench.Single.{HasLetters, carried_backward, repeated, iterations-refines}
use underling.Bench.Several.{backward_pass-in_place, first_transform-forgets, powers}
use underling.Bench.Loops.{times}
use underling.Bench.Text.{Text, trim, from_human_readable_byte_count}
use underling.Bench.Text.Units.{from_human-reads}
use underling.Bench.Options.{Libc, State, Argument, parse_opt, parsed, howmany, fft_ccr, trans_all}
use underling.Bench.Options.Laws.{IsValid, Reaches, here, next, reached-IsValid}
use underling.Tests.Worlds.{constants}

-- Two complex directions and a real one over 4 by 5 by 10, transposes and transforms out of place. A
-- double is a number here.
abbrev sample : Details ℕ
sample = record {
  world_rank = 0;
  world_size = 1;
  verbose = 0;
  repeat = pos 1;
  nfields = pos 3;
  howmany = pos 2;
  nthreads = pos 0;
  n0 = pos 4;
  n1 = pos 5;
  n2 = pos 6;
  p_a = pos 0;
  p_b = pos 0;
  bytes = pos 0;
  transposed_flags = 0;
  transform_flags = 0;
  fftw_rigor_flags = 0;
  packed_flags = 0;
  wisdom_file = none;
  fft_n0 = b'c';
  fft_n1 = b'c';
  fft_n2 = b'r';
  mpi_inplace = false;
  fft_inplace = false;
  forward = true;
  backward = true;
  abstol = 0;
}

-- The same with everything in place.
abbrev resting : Details ℕ
resting = record sample { mpi_inplace = true; fft_inplace = true }

letters : HasLetters sample
letters = record { letter0 = inr (inl refl); letter1 = inr (inl refl); letter2 = inr (inr refl) }

-- An operation that multiplies, and one that destroys its input where that is not its output.
abbrev by : ℕ → Operation ℕ
by k = record { result = λ v. k * v; left = λ v. 0 }

abbrev operations : Operations ℕ
operations = record {
  forward_n2 = by 1;
  n2_to_n1 = by 1;
  forward_n1 = by 1;
  n1_to_n0 = by 1;
  forward_n0 = by 1;
  backward_n0 = by 4;
  n0_to_n1 = by 1;
  backward_n1 = by 5;
  n1_to_n2 = by 1;
  backward_n2 = by 10;
  normalize = λ v. v / 200;
}

-- Field i in buffer i, with the content i + 7.
abbrev filled : Buffers ℕ
filled = record { f = λ i. i + 7; o = λ i. i }

movement_of-Stays_example : Stays true true true true (movement_of sample)
movement_of-Stays_example = movement_of-Stays sample

iterations-refines_example :
    (iterations sample (movement_of sample) operations 1 2 filled).f 0
    ≡ repeated sample letters operations refl 2 7
iterations-refines_example = iterations-refines sample letters operations refl 2 filled

backward_pass-in_place_example :
    ((backward_pass resting (movement_of resting) operations 3 filled).f 0
      ≡ carried_backward resting (powers resting refl refl operations 3 (omega arith) filled) 7)
    × ((i : ℕ)
        → (backward_pass resting (movement_of resting) operations 3 filled).f (suc i) ≡ suc i + 7)
backward_pass-in_place_example =
    backward_pass-in_place resting refl refl operations 3 (omega arith) filled

first_transform-forgets_example :
    let after =
      λ (b : Buffers ℕ). transform true (by 2) (movement_of sample).m0 3 (start_forward 3 b) in
    ((i : ℕ) → i ≤ 3 → (after filled).f i ≡ (after (record filled { f = λ i. 7 })).f i)
    × ((after filled).f 3 ≡ times (by 2) 3 7)
first_transform-forgets_example =
    first_transform-forgets sample refl (by 2) 3 filled (λ i. 7) (omega arith) refl

-- The C library: only the space is a blank, and every number that is read is 9.
abbrev libc : Libc ℕ
libc = record {
  isspace = λ c. c == b' ';
  toupper = λ c. c;
  scan_ints = λ k t. record { count = k; value = λ i. pos 9 };
  scan_real = λ t. record { count = 1; value = λ i. 9 };
  strdup = λ t. some "wisdom";
  is_negative = λ v. false;
  strtod = λ t. none;
  product = λ v u k. pos v;
  truncated = λ v. pos v;
}

abbrev at_start : State ℕ
at_start = record { details = defaults 0 1 0; time_limit = none }

-- After `--ccr`, then `--trans`, then `--howmany=9`.
abbrev with_letters : State ℕ
with_letters = record at_start {
  details = record (defaults 0 1 0) { fft_n0 = b'c'; fft_n1 = b'c'; fft_n2 = b'r' };
}

abbrev with_flags : State ℕ
with_flags = record at_start { details = record with_letters.details { transposed_flags = 48 } }

abbrev at_end : State ℕ
at_end = record at_start { details = record with_flags.details { howmany = pos 9 } }

abbrev nine : Argument
nine = record { before = 0 ∷ []; text = b'9' ∷ [] }

letters_set : parse_opt libc constants at_start fft_ccr none ≡ parsed with_letters
unfolding parse_opt defaults
letters_set = refl

flags_set : parse_opt libc constants with_letters trans_all none ≡ parsed with_flags
unfolding parse_opt defaults
flags_set = refl

number_set : parse_opt libc constants with_flags howmany (some nine) ≡ parsed at_end
unfolding parse_opt defaults trim
number_set = refl

reaches : Reaches libc constants at_start at_end
reaches =
    next howmany (some nine)
      (next trans_all none (next fft_ccr none (here _) letters_set) flags_set) number_set

reached-IsValid_example : IsValid at_end.details
reached-IsValid_example = reached-IsValid libc constants 0 1 0 reaches

-- What stands behind the number of "10 KiB ".
abbrev behind : Text
behind = b' ' ∷ b'K' ∷ b'i' ∷ b'B' ∷ b' ' ∷ []

abbrev upper : ℕ → ℕ
upper c = if c == b'i' then b'I' else c

abbrev count_of : Text → ℤ
count_of =
    from_human_readable_byte_count libc.isspace upper (λ t. some (10, behind))
      (λ x unit k. pos (x * unit ^ k)) pos

from_human-reads_example : count_of (b'1' ∷ b'0' ∷ behind) ≡ pos 10000
from_human-reads_example =
    from_human-reads libc.isspace upper {left = b' ' ∷ []} {letter = b'K'} {mark = some b'i'}
      {right = b' ' ∷ []} {k = 1}
      (record {
        left_blank = (refl, tt);
        right_blank = (refl, tt);
        letter_visible = refl;
        letter_of_power = refl;
        mark_i = refl;
        b_byte = refl;
      })
      (λ t. some (10, behind)) (λ x unit k. pos (x * unit ^ k)) pos (b'1' ∷ b'0' ∷ behind) 10 refl
