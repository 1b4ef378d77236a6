-- ===== src/Init.antt =====
-- The start and the end of the library, and the switch for debugging, in underling/underling.c.
pub mod Success
use underling.Common.{
  ℕ, ◌==◌, ltb, not, Bool, ℤ, pos, negsuc, false, [], ◌∷◌, ◌≡◌, refl, List, Option, none, some,
  arith,
}
use underling.Machine.{
  M, World, Call, ok, when◌then◌else◌, pure, ◌>>=◌, ◌>>◌, invoke, perform, mpi_initialized,
  mpi_init, fftw_init_threads, getenv_atoi, fftw_plan_with_nthreads, fftw_mpi_init,
  fftw_mpi_cleanup, fftw_cleanup_threads,
}
use underling.Error.{Status, success, einval, esanity, error_code, mpichkr, reporting}

-- `underling_only_init` and `underling_only_cleanup`.
unfoldable pub only_init : M Status
only_init = pure success

unfoldable pub only_cleanup : M (Unit {0})
only_cleanup = pure tt

unfoldable pub init_fftw : M Status
init_fftw = perform fftw_mpi_init >> only_init

unfoldable pub plan_with : ℤ → M Status
plan_with nthreads = perform (fftw_plan_with_nthreads nthreads) >> init_fftw

abbrev pub is_zero : ℤ → Bool
is_zero (pos n) = n == 0
is_zero (negsuc n) = false

-- The first output of the call for the variable is 0 if it is not set, and the second is the larger
-- one of its value and 0.
unfoldable pub choose_threads : ℤ → M Status
choose_threads nthreads = when not (is_zero nthreads) then plan_with nthreads else do
  v ← invoke (getenv_atoi "OMP_NUM_THREADS")
  when v.out 0 == 0
      then plan_with (pos 1)
      else when ltb (v.out 1) 1
      then error_code "Malformed OMP_NUM_THREADS environment variable" einval
      else plan_with (pos (v.out 1))

-- `threads` says whether `HAVE_FFTW3_THREADS` is defined.
unfoldable pub init_threads : (threads : Bool) → ℤ → M Status
init_threads threads nthreads = when not threads then init_fftw else do
  t ← invoke fftw_init_threads
  when t.out 0 == 0
      then error_code "fftw_init_threads reported an error" esanity
      else choose_threads nthreads

-- `underling_init`.
unfoldable pub init : (threads : Bool) → ℤ → M Status
init threads nthreads = do
  q ← invoke mpi_initialized
  when not (q.status == 0)
      then (mpichkr q.status >> pure esanity)
      else when not (q.out 0 == 0)
      then init_threads threads nthreads
      else do
        i ← invoke mpi_init
        when not (i.status == 0)
            then (mpichkr i.status >> pure esanity)
            else init_threads threads nthreads

-- `underling_cleanup`.
unfoldable pub cleanup : (threads : Bool) → M (Unit {0})
cleanup threads = do
  perform fftw_mpi_cleanup
  when threads then perform fftw_cleanup_threads else pure tt
  only_cleanup

-- `underling_debug_transpose`: the previous communicator is returned.
unfoldable pub debug_transpose : ℕ → M ℕ
debug_transpose comm w = ok w.debug_comm (record w { debug_comm = comm })
