-- ===== src/Bench/Options.antt =====
-- The options of the benchmark: `parse_opt`, and what it makes of a command line.
pub mod Laws
use underling.Common.{
  ℕ, suc, ◌+◌, ◌==◌, ltb, not, ◌||◌, Bool, true, false, ℤ, pos, negsuc, below, List, [], ◌∷◌,
  Option, none, some, String, bit_or, if◌then◌else◌,
}
use underling.Machine.{FftwConstants}
use underling.Problem.Defs.{transposed_long_n2, transposed_long_n0}
use underling.Fftw.Create.{packed_long_n2, packed_long_n0}
use underling.Bench.Defs.{Details}
use underling.Bench.Text.{Text, trim, from_human_readable_byte_count}

-- The keys. `other` is a key that `parse_opt` does not know.
pub data Key : Type 0 where
  key_arg key_end : (arg_num : ℕ) → Key
  estimate measure patient exhaustive wisdom_only : Key
  dir_forward dir_backward dir_both : Key
  trans_n2 trans_n0 trans_all : Key
  fft_iic fft_iir fft_icc fft_icr fft_ccc fft_ccr : Key
  pack_n2 pack_n0 pack_all : Key
  check timelimit mpi_in_place fft_in_place verbose repeat nthreads nfields howmany : Key
  field_memory field_global dims other : Key

-- What `sscanf` stored: how many items (0 also for EOF), and their values in order.
pub record Scan (A : Type 0) : Type 0 where
  pub count : ℕ
  pub value : ℕ → A

-- The functions of libc that the options need. `scan_ints k` is the format of `k` numbers with an `x`
-- between them, `scan_real` that of a `double`, both with the extra `%c`.
pub record Libc (R : Type 0) : Type 0 where
  pub isspace : ℕ → Bool
  pub toupper : ℕ → ℕ
  pub scan_ints : ℕ → Text → Scan ℤ
  pub scan_real : Text → Scan R
  pub strdup : Text → Option String
  pub is_negative : R → Bool
  pub strtod : Text → Option (R × Text)
  pub product : R → ℕ → ℕ → ℤ
  pub truncated : R → ℤ

-- The details, and the time limit that FFTW was given last.
pub record State (R : Type 0) : Type 0 where
  pub details : Details R
  pub time_limit : Option R

-- How `parse_opt` ends: with 0, with ARGP_ERR_UNKNOWN, or not at all, since `argp_usage`,
-- `argp_error` and `argp_failure` end the program, an assertion fails or memory is out of bounds.
pub data Parse (A : Type 0) : Type 0 where
  parsed : A → Parse A
  unknown : Parse A
  refused : String → Parse A
  assertion out_of_bounds : Parse A

-- An argument, and the memory before it.
pub record Argument : Type 0 where
  pub before : Text
  pub text : Text

abbrev pub is_zero : ℤ → Bool
is_zero (pos n) = n == 0
is_zero (negsuc n) = false

module _ {R : Type 0} (libc : Libc R) where
  -- An option that takes one integer, which is stored before it is checked.
  unfoldable pub one_int :
      (text : Text) (old : ℤ) (least : ℕ) (name : String) (put : ℤ → State R) → Parse (State R)
  one_int text old least name put =
      let s = libc.scan_ints 1 text in
      let v = if ltb 0 s.count then s.value 0 else old in
      if not (s.count == 1)
      then refused (name)
      else if below v least
      then refused (name)
      else parsed (put v)

  -- What the third and later integers of a format are stored over.
  abbrev pub stored : Scan ℤ → ℕ → ℤ → ℤ
  stored s k old = if ltb k s.count then s.value k else old

module _ {R : Type 0} (libc : Libc R) (fftw : FftwConstants) (st : State R) where
  abbrev pub d : Details R
  d = st.details

  abbrev pub with_details : Details R → State R
  with_details d = record st { details = d }

  -- The letters of `--ccc` and the like, from n0 to n2.
  abbrev pub with_letters : (n0 n1 n2 : ℕ) → Parse (State R)
  with_letters n0 n1 n2 = parsed (with_details (record d { fft_n0 = n0; fft_n1 = n1; fft_n2 = n2 }))

  abbrev pub with_rigor : ℕ → Parse (State R)
  with_rigor flags = parsed (with_details (record d { fftw_rigor_flags = flags }))

  unfoldable pub check_option : Text → Parse (State R)
  check_option text =
      let s = libc.scan_real text in
      let v = if ltb 0 s.count then s.value 0 else d.abstol in
      if not (s.count == 1)
      then refused "check option is malformed"
      else if libc.is_negative v
      then refused "abstol value must be positive"
      else parsed (with_details (record d { abstol = v }))

  unfoldable pub time_option : Text → Parse (State R)
  time_option text =
      let s = libc.scan_real text in
      if not (s.count == 1)
      then refused "timelimit option is malformed"
      else if libc.is_negative (s.value 0)
      then refused "timelimit value must be nonnegative"
      else parsed (record st { time_limit = some (s.value 0) })

  unfoldable pub memory_option : Option Text → Parse (State R)
  memory_option arg =
      if not (is_zero d.n0) || not (is_zero d.n1) || not (is_zero d.n2)
      then refused "only one of --field-{memory,global} may be specified"
      else elim arg [
        | none ↦ parsed st
        | some text ↦
            let bytes =
              from_human_readable_byte_count libc.isspace libc.toupper libc.strtod libc.product
                libc.truncated text in
            if below bytes 1
            then refused "field-memory option is malformed"
            else parsed (with_details (record d { bytes = bytes }))
      ]

  unfoldable pub global_option : Text → Parse (State R)
  global_option text =
      let s = libc.scan_ints 3 text in
      let n0 = stored libc s 0 d.n0 in
      let n1 = stored libc s 1 d.n1 in
      let n2 = stored libc s 2 d.n2 in
      if not (is_zero d.bytes)
      then refused "only one of --field-{memory,global} may be specified"
      else if not (s.count == 3)
      then refused "field-global option is malformed"
      else if below n0 0 || below n1 0 || below n2 0
      then refused "field-global values must be nonnegative"
      else parsed (with_details (record d { n0 = n0; n1 = n1; n2 = n2 }))

  unfoldable pub dims_option : Text → Parse (State R)
  dims_option text =
      let s = libc.scan_ints 2 text in
      let p_a = stored libc s 0 d.p_a in
      let p_b = stored libc s 1 d.p_b in
      if not (s.count == 2)
      then refused "dims option not of form pAxpB"
      else if below p_a 0 || below p_b 0
      then refused "field-global values must be nonnegative"
      else parsed (with_details (record d { p_a = p_a; p_b = p_b }))

  unfoldable pub wisdom_option : ℕ → Text → Parse (State R)
  wisdom_option arg_num text = if ltb 0 arg_num then refused "usage" else elim (libc.strdup text) [
    | none ↦ assertion
    | some file ↦ parsed (with_details (record d { wisdom_file = some file }))
  ]

  -- `arg ? arg : ""`.
  abbrev pub or_empty : Option Text → Text
  or_empty none = []
  or_empty (some text) = text

  abbrev pub with_transposed : ℕ → Parse (State R)
  with_transposed flags = parsed (with_details (record d { transposed_flags = flags }))

  abbrev pub with_packed : ℕ → Parse (State R)
  with_packed flags =
      parsed (with_details (record d { packed_flags = bit_or d.packed_flags flags }))

  -- The switch of `parse_opt`.
  unfoldable pub switch : Key → Option Text → Parse (State R)
  unfolding wisdom_option check_option time_option memory_option global_option dims_option one_int
  switch (key_arg arg_num) arg = wisdom_option arg_num (or_empty arg)
  switch (key_end arg_num) arg = if ltb 1 arg_num then refused "usage" else parsed st
  switch estimate arg = with_rigor fftw.estimate
  switch measure arg = with_rigor fftw.measure
  switch patient arg = with_rigor fftw.patient
  switch exhaustive arg = with_rigor fftw.exhaustive
  switch wisdom_only arg = with_rigor fftw.wisdom_only
  switch dir_forward arg = parsed (with_details (record d { forward = true; backward = false }))
  switch dir_backward arg = parsed (with_details (record d { forward = false; backward = true }))
  switch dir_both arg = parsed (with_details (record d { forward = true; backward = true }))
  switch trans_n2 arg = with_transposed (bit_or d.transposed_flags transposed_long_n2)
  switch trans_n0 arg = with_transposed (bit_or d.transposed_flags transposed_long_n0)
  switch trans_all arg =
      with_transposed (bit_or (bit_or d.transposed_flags transposed_long_n2) transposed_long_n0)
  switch fft_iic arg = with_letters b'i' b'i' b'c'
  switch fft_iir arg = with_letters b'i' b'i' b'r'
  switch fft_icc arg = with_letters b'i' b'c' b'c'
  switch fft_icr arg = with_letters b'i' b'c' b'r'
  switch fft_ccc arg = with_letters b'c' b'c' b'c'
  switch fft_ccr arg = with_letters b'c' b'c' b'r'
  switch pack_n2 arg = with_packed packed_long_n2
  switch pack_n0 arg = with_packed packed_long_n0
  switch pack_all arg = with_packed (bit_or packed_long_n0 packed_long_n2)
  switch check arg = check_option (or_empty arg)
  switch timelimit arg = time_option (or_empty arg)
  switch mpi_in_place arg = parsed (with_details (record d { mpi_inplace = true }))
  switch fft_in_place arg = parsed (with_details (record d { fft_inplace = true }))
  switch verbose arg = parsed (with_details (record d { verbose = suc d.verbose }))
  switch repeat arg =
      one_int libc (or_empty arg) d.repeat 0 "repeat" (λ v. with_details (record d { repeat = v }))
  switch nthreads arg =
      one_int libc (or_empty arg) d.nthreads 0 "nthreads"
        (λ v. with_details (record d { nthreads = v }))
  switch nfields arg =
      one_int libc (or_empty arg) d.nfields 0 "nfields"
        (λ v. with_details (record d { nfields = v }))
  switch howmany arg =
      one_int libc (or_empty arg) d.howmany 1 "howmany"
        (λ v. with_details (record d { howmany = v }))
  switch field_memory arg = memory_option arg
  switch field_global arg = global_option (or_empty arg)
  switch dims arg = dims_option (or_empty arg)
  switch other arg = unknown

  -- `parse_opt`: the argument is trimmed first.
  unfoldable pub parse_opt : Key → Option Argument → Parse (State R)
  unfolding switch
  parse_opt key none = switch key none
  parse_opt key (some a) = elim (trim libc.isspace a.before a.text) [
    | none ↦ out_of_bounds
    | some (text, before) ↦ switch key (some text)
  ]
