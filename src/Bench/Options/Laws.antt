-- ===== src/Bench/Options/Laws.antt =====
-- What holds of the details that the options can make.
use underling.Common.{
  ℕ, ◌-◌, ◌^◌, ◌≡◌, ◌⊎◌, ◌||◌, ◌&&◌, true, below, bit_and, bit_or, Option, none, some, arith, false,
}
use underling.Machine.{FftwConstants}
use underling.Grid.Defs.{Grid}
use underling.Problem.Create.{check_arguments}
use underling.Bench.Defs.{Details, defaults}
use underling.Bench.Single.{IsLetter}
use underling.Bench.Text.{Text, trim}
use underling.Bench.Options.{Key, Libc, State, Parse, parsed, Argument, is_zero, switch, parse_opt}

-- The transposed flags, and likewise the packed ones: any of two bits.
abbrev pub IsFlags : (a b flags : ℕ) → Type 0
IsFlags a b flags = (flags ≡ 0) ⊎ (flags ≡ a) ⊎ (flags ≡ b) ⊎ (flags ≡ bit_or a b)

pub record IsValid {R : Type 0} (d : Details R) : Type 0 where
  pub repeat_nonneg : below d.repeat 0 ≡ false
  pub nfields_nonneg : below d.nfields 0 ≡ false
  pub nthreads_nonneg : below d.nthreads 0 ≡ false
  pub howmany_positive : below d.howmany 1 ≡ false
  pub extents_nonneg : below d.n0 0 || below d.n1 0 || below d.n2 0 ≡ false
  pub dims_nonneg : below d.p_a 0 || below d.p_b 0 ≡ false
  pub bytes_nonneg : below d.bytes 0 ≡ false
  pub one_size : (is_zero d.bytes ≡ true) ⊎ (is_zero d.n0 && is_zero d.n1 && is_zero d.n2 ≡ true)
  pub letter0 : IsLetter d.fft_n0
  pub letter1 : IsLetter d.fft_n1
  pub letter2 : IsLetter d.fft_n2
  pub some_direction : d.forward || d.backward ≡ true

-- The flags that a problem is created with: any of the two that there are.
pub record HasFlags {R : Type 0} (d : Details R) : Type 0 where
  pub transposed : IsFlags 16 32 d.transposed_flags

or_n2 : (f : ℕ) → IsFlags 16 32 f → IsFlags 16 32 (bit_or f 16)
or_n2 f h = ground arith

or_n0 : (f : ℕ) → IsFlags 16 32 f → IsFlags 16 32 (bit_or f 32)
or_n0 f h = ground arith

module _ {R : Type 0} (world_rank world_size : ℕ) (minus_one : R) where
  initial-IsValid : IsValid (defaults world_rank world_size minus_one)
  unfolding defaults
  initial-IsValid = ground arith

  initial-HasFlags : HasFlags (defaults world_rank world_size minus_one)
  unfolding defaults
  initial-HasFlags = ground arith

  start : let d = defaults world_rank world_size minus_one in IsValid d × HasFlags d
  start = (initial-IsValid, initial-HasFlags)

-- What lies outside of the two flags.
masked : (f : ℕ) → IsFlags 16 32 f → bit_and f (2 ^ 32 - 1 - 48) ≡ 0
masked f h = ground arith

module _ {R : Type 0} (libc : Libc R) (fftw : FftwConstants) where
  switch-IsValid :
      (key : Key) (arg : Option Text) (st st' : State R)
      → IsValid st.details
      → switch libc fftw st key arg ≡ parsed st'
      → IsValid st'.details
  unfolding switch
  switch-IsValid (Key.key_arg n) arg st st' v h = ground arith
  switch-IsValid key arg st st' v h = ground arith

  switch-HasFlags :
      (key : Key) (arg : Option Text) (st st' : State R)
      → HasFlags st.details
      → switch libc fftw st key arg ≡ parsed st'
      → HasFlags st'.details
  unfolding switch
  switch-HasFlags (Key.key_arg n) arg st st' v h = ground arith
  switch-HasFlags key arg st st' v h = ground (
    arith,
    or_n2 st.details.transposed_flags,
    or_n0 st.details.transposed_flags,
    or_n0 (bit_or st.details.transposed_flags 16),
  )

  parse_opt-IsValid :
      (key : Key) (arg : Option Argument) (st st' : State R)
      → IsValid st.details
      → HasFlags st.details
      → parse_opt libc fftw st key arg ≡ parsed st'
      → IsValid st'.details × HasFlags st'.details
  unfolding parse_opt
  parse_opt-IsValid key none st st' v f h =
      (switch-IsValid key none st st' v h, switch-HasFlags key none st st' f h)
  parse_opt-IsValid key (some a) st st' v f h = trimmed (trim libc.isspace a.before a.text) h
    where
      trimmed :
          (t : Option (Text × Text))
          → (elim t [
            | none ↦ Parse.out_of_bounds
            | some (text, before) ↦ switch libc fftw st key (some text)
          ])
            ≡ parsed st'
          → IsValid st'.details × HasFlags st'.details
      trimmed none e = absurd (cc)
      trimmed (some (text, before)) e =
          (switch-IsValid key (some text) st st' v e, switch-HasFlags key (some text) st st' f e)

  -- The states that the calls of `parse_opt` can lead to; a key that it does not know changes nothing.
  pub data Reaches : State R → State R → Type 0 where
    here : (st : State R) → Reaches st st
    next :
        {st st' st'' : State R} (key : Key) (arg : Option Argument)
        → Reaches st st'
        → parse_opt libc fftw st' key arg ≡ parsed st''
        → Reaches st st''

  Reaches-IsValid :
      {st st' : State R}
      → Reaches st st'
      → IsValid st.details × HasFlags st.details
      → IsValid st'.details × HasFlags st'.details
  Reaches-IsValid (here st) v = v
  Reaches-IsValid (next key arg r e) v =
      let (w, f) = Reaches-IsValid r v in parse_opt-IsValid key arg _ _ w f e

  module _ (world_rank world_size : ℕ) (minus_one : R) {limit : Option R} where
    -- Whatever options were given in whatever order, the numbers of the details are in their ranges,
    -- at most one of the two ways to give the size was used, each letter is one of the three, and
    -- there is a direction to go.
    pub reached-IsValid :
        {st : State R}
        → Reaches
            (record { details = defaults world_rank world_size minus_one; time_limit = limit })
            st
        → IsValid st.details
    reached-IsValid r = (Reaches-IsValid r (start world_rank world_size minus_one)).0

    -- The library accepts what the options can make of its arguments.
    pub reached-check_arguments :
        {st : State R} (g : Grid)
        → Reaches
            (record { details = defaults world_rank world_size minus_one; time_limit = limit })
            st
        → check_arguments (some g) st.details.howmany st.details.transposed_flags ≡ none
    unfolding check_arguments
    reached-check_arguments {st} g r =
        let (v, f) = Reaches-IsValid r (start world_rank world_size minus_one) in
        ground (arith, v.howmany_positive, masked st.details.transposed_flags f.transposed)
