-- ===== src/Transpose/Defs.antt =====
-- One transpose: its creation, its inverse, its destruction, and its FFTW plan.
use underling.Common.{
  ℕ, ◌==◌, ltb, not, ◌||◌, Bool, bit_and, bit_or, not32, String, Option, none, some, [],
  if◌then◌else◌,
}
use underling.Machine.{
  M, when◌then◌else◌, pure, gets, ◌>>=◌, ◌>>◌, invoke, perform, first_out, FftwConstants, Reply,
  malloc, free, comm_get_name, comm_set_name, comm_dup, comm_free, local_size_many_transposed,
  plan_many_transpose, plan_guru_r2r,
}
use underling.Error.{einval, enomem, esanity, error_null, error_val, mpichkr}
use underling.Grid.Defs.{release_comm}

-- `struct underling_transpose_s`, with the address of its memory block.
pub record Transpose : Type 0 where
  pub block : ℕ
  pub comm : ℕ
  pub d0 : ℕ
  pub d1 : ℕ
  pub howmany : ℕ
  pub block0 : ℕ
  pub block1 : ℕ
  pub flags : ℕ
  pub local0 : ℕ
  pub local1 : ℕ
  pub local_start0 : ℕ
  pub local_start1 : ℕ
  pub local_size : ℕ

-- `underling_MPI_Comm_dup_with_name`.
unfoldable pub comm_dup_with_name : ℕ → M ℕ
comm_dup_with_name comm = when comm == 0 then pure 0 else do
  n ← invoke (comm_get_name comm)
  when not (n.status == 0) then (mpichkr n.status >> pure 0) else do
    d ← invoke (comm_dup comm)
    let c = first_out d.status (d.out 0)
    when not (d.status == 0)
        then (mpichkr d.status >> pure 0)
        else when not (ltb 0 (n.out 0))
        then pure c
        else do
          s ← invoke (comm_set_name c "the name of the original" [])
          when not (s.status == 0)
              then (do mpichkr s.status; f ← invoke (comm_free c); mpichkr f.status; pure 0)
              else pure c

-- `underling_transpose_destroy`.
unfoldable pub destroy : Option Transpose → M (Unit {0})
destroy none = pure tt
destroy (some t) = release_comm t.comm >> perform (free t.block)

-- A transpose without data: FFTW is not asked, since it would divide by zero.
unfoldable pub is_trivial : Transpose → Bool
is_trivial t = t.howmany == 0 || t.d0 == 0 || t.d1 == 0

-- The details that FFTW gives for the transpose.
unfoldable pub with_local : Transpose → Reply → Transpose
with_local t r = record t {
  local_size = r.out 0;
  local0 = r.out 1;
  local_start0 = r.out 2;
  local1 = r.out 3;
  local_start1 = r.out 4;
}

unfoldable pub without_local : Transpose → Transpose
without_local t = record t {
  local0 = 0;
  local1 = 0;
  local_start0 = 0;
  local_start1 = 0;
  local_size = 0;
}

unfoldable pub fix_local : Transpose → String → M (Option Transpose)
fix_local t null_reason =
    when t.comm == 0
    then (destroy (some t) >> error_null null_reason esanity)
    else when is_trivial t
    then pure (some (without_local t))
    else do
      r ← invoke (local_size_many_transposed t.d0 t.d1 t.howmany t.block0 t.block1 t.comm)
      pure (some (with_local t r))

-- The workspace that `calloc` clears and the arguments fill.
unfoldable pub workspace : (p comm d0 d1 howmany block0 block1 flags : ℕ) → Transpose
workspace p comm d0 d1 howmany block0 block1 flags = record {
  block = p;
  comm = comm;
  d0 = d0;
  d1 = d1;
  howmany = howmany;
  block0 = block0;
  block1 = block1;
  flags = flags;
  local0 = 0;
  local1 = 0;
  local_start0 = 0;
  local_start1 = 0;
  local_size = 0;
}

-- `underling_transpose_create`.
unfoldable pub create : (d0 d1 howmany block0 block1 comm flags : ℕ) → M (Option Transpose)
create d0 d1 howmany block0 block1 comm flags =
    when comm == 0
    then error_null "Unable to create transpose for comm == MPI_COMM_NULL" einval
    else do
      m ← invoke (malloc "struct underling_transpose_s")
      when m.out 0 == 0 then error_null "failed to allocate space for transpose" enomem else do
        c ← comm_dup_with_name comm
        fix_local (workspace (m.out 0) c d0 d1 howmany block0 block1 flags)
            "Detected MPI_COMM_NULL in t->comm"

-- The flags of the inverse: what came in transposed goes out transposed, and the other way round.
unfoldable pub inverse_flags : FftwConstants → ℕ → ℕ
inverse_flags k flags =
    let b0 : ℕ =
      if not (bit_and flags k.transposed_in == 0) then bit_or 0 k.transposed_out else 0 in
    if not (bit_and flags k.transposed_out == 0) then bit_or b0 k.transposed_in else b0

-- A bit beside the two flags is set.
unfoldable pub has_other_flags : FftwConstants → ℕ → Bool
has_other_flags k flags =
    not (bit_and flags (bit_and (not32 k.transposed_in) (not32 k.transposed_out)) == 0)

-- `underling_transpose_create_inverse`.
unfoldable pub create_inverse : Option Transpose → M (Option Transpose)
create_inverse none = error_null "forward == NULL" einval
create_inverse (some f) = do
  k ← gets (λ w. w.env.fftw)
  when has_other_flags k f.flags
      then error_null "Flags contains non-FFTW_MPI_TRANSPOSED_{IN,OUT}" esanity
      else do
        m ← invoke (malloc "struct underling_transpose_s")
        when m.out 0 == 0 then error_null "failed to allocate space for transpose" enomem else do
          c ← comm_dup_with_name f.comm
          fix_local
              (workspace (m.out 0) c f.d1 f.d0 f.howmany f.block1 f.block0
                (inverse_flags k f.flags))
              "Detected MPI_COMM_NULL in backward->comm"

-- `underling_transpose_fftw_plan`.
unfoldable pub fftw_plan : Option Transpose → (src dst fftw_flags : ℕ) → M ℕ
fftw_plan none src dst fftw_flags = error_val "transpose == NULL" einval 0
fftw_plan (some t) src dst fftw_flags =
    when is_trivial t then (do r ← invoke (plan_guru_r2r [] 0 0 0); pure (r.out 0)) else do
      r ← invoke (
          plan_many_transpose t.d0 t.d1 t.howmany t.block0 t.block1 src dst t.comm
            (bit_or t.flags fftw_flags))
      pure (r.out 0)
