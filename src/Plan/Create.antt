-- ===== src/Plan/Create.antt =====
-- `underling_plan_create`, in the order of its statements.
use underling.Common.{
  ℕ, zero, suc, ◌+◌, ◌==◌, Bool, true, false, not, bit_and, bit_or, not32, String, Option, none,
  some, [], ◌∷◌, if◌then◌else◌,
}
use underling.Machine.{
  M, when◌then◌else◌, checked, pure, gets, ◌>>=◌, ◌>>◌, invoke, perform, FftwConstants, malloc,
  comm_size, comm_rank, barrier, flush, print, str,
}
use underling.Error.{einval, enomem, efailed, error_null, mpichkr, stdout}
use underling.Print.{fprint_transpose}
use underling.Transpose
use underling.Transpose.Defs.{Transpose}
use underling.Problem.Defs.{Problem}
use underling.Plan.Defs.{Plan, destroy}

-- The flags of underling/underling.h.
abbrev pub long_n2_to_long_n1 : ℕ
long_n2_to_long_n1 = 1

abbrev pub long_n1_to_long_n0 : ℕ
long_n1_to_long_n0 = 2

abbrev pub long_n0_to_long_n1 : ℕ
long_n0_to_long_n1 = 4

abbrev pub long_n1_to_long_n2 : ℕ
long_n1_to_long_n2 = 8

abbrev pub transpose_none : ℕ
transpose_none = 16

abbrev pub transpose_all : ℕ
transpose_all =
    bit_or (bit_or (bit_or long_n2_to_long_n1 long_n1_to_long_n0) long_n0_to_long_n1)
      long_n1_to_long_n2

-- The bits that are no planning rigor of FFTW.
unfoldable pub non_rigor_mask : FftwConstants → ℕ
non_rigor_mask k =
    bit_and
      (bit_and (bit_and (bit_and (not32 k.estimate) (not32 k.measure)) (not32 k.patient))
        (not32 k.exhaustive))
      (not32 k.wisdom_only)

unfoldable pub check_arguments :
    FftwConstants → Option Problem → (src dst transpose_flags rigor_flags : ℕ) → Option String
check_arguments k none src dst transpose_flags rigor_flags = some "problem == NULL"
check_arguments k (some p) src dst transpose_flags rigor_flags =
    if src == 0
    then some "in == NULL"
    else if dst == 0
    then some "out == NULL"
    else if not (bit_and transpose_flags (not32 (bit_or transpose_all transpose_none)) == 0)
    then some "transpose_flags contains non-direction bit"
    else if not (bit_and rigor_flags (non_rigor_mask k) == 0)
    then some "FFTW non-rigor bits disallowed"
    else none

-- No flag stands for all, and the flag for none clears the directions.
unfoldable pub effective_flags : ℕ → ℕ
effective_flags flags =
    let f = if flags == 0 then transpose_all else flags in
    if not (bit_and f transpose_none == 0) then bit_and f (not32 transpose_all) else f

-- The loop of `underling_dump_transposes`: process i prints in round i. It says whether it came to
-- its end, since the function returns at the first MPI call that fails.
unfoldable pub dump_rounds : (left i : ℕ) → (comm rank out : ℕ) → String → Option Transpose → M Bool
dump_rounds zero i comm rank out prefix t = pure true
dump_rounds (suc left) i comm rank out prefix t = do
  b ← invoke (barrier comm)
  when not (b.status == 0) then (mpichkr b.status >> pure false) else do
    when i == rank
        then (do
          perform (print out "%s" (str prefix ∷ []))
          perform (print out " " [])
          fprint_transpose t out
          perform (print out "\n" [])
          perform (flush out))
        else pure tt
    dump_rounds left (i + 1) comm rank out prefix t

-- `underling_dump_transposes`.
unfoldable pub dump_transposes : ℕ → ℕ → String → Option Transpose → M (Unit {0})
dump_transposes comm out prefix t = do
  s ← invoke (comm_size comm)
  when not (s.status == 0) then mpichkr s.status else do
    r ← invoke (comm_rank comm)
    when not (r.status == 0) then mpichkr r.status else do
      b ← invoke (barrier comm)
      when not (b.status == 0) then mpichkr b.status else do
        perform (flush out)
        done ← dump_rounds (s.out 0) 0 comm (r.out 0) out prefix t
        when not done
            then pure tt
            else do perform (flush out); e ← invoke (barrier comm); mpichkr e.status

unfoldable pub debug_dump : String → Option Transpose → M (Unit {0})
debug_dump prefix t = do
  c ← gets (λ w. w.debug_comm)
  when c == 0 then pure tt else dump_transposes c stdout prefix t

-- One direction: the FFTW plan if the test of the flags passes, and the way out if that is NULL.
-- The test is `transpose_flags | direction`.
unfoldable pub plan_direction :
    Plan
    → (flags direction : ℕ) → Option Transpose
    → (src dst fftw_flags : ℕ) → String
    → (ℕ → M (Option Plan))
    → M (Option Plan)
plan_direction p flags direction t src dst fftw_flags reason go =
    when bit_or flags direction == 0 then go 0 else do
      q ← Transpose.Defs.fftw_plan t src dst fftw_flags
      when q == 0 then (destroy (some p) >> error_null reason efailed) else go q

unfoldable pub plan_forward : Problem → Plan → (flags src dst fftw_flags : ℕ) → M (Option Plan)
plan_forward b p flags src dst fftw_flags = do
  debug_dump "UNDERLING_DEBUG forwardB" b.forward_b
  plan_direction p flags long_n0_to_long_n1 b.forward_b src dst fftw_flags
      "fftw_mpi_plan_many_transpose returned NULL plan: plan_forwardB"
      λ q. do
        let p' = record p { plan_forward_b = q }
        debug_dump "UNDERLING_DEBUG forwardA" b.forward_a
        plan_direction p' flags long_n1_to_long_n2 b.forward_a src dst fftw_flags
            "fftw_mpi_plan_many_transpose returned NULL plan: plan_forwardA"
            λ q. pure (some (record p' { plan_forward_a = q }))

unfoldable pub plan_backward : Problem → Plan → (flags src dst fftw_flags : ℕ) → M (Option Plan)
plan_backward b p flags src dst fftw_flags = do
  debug_dump "UNDERLING_DEBUG backwardA" b.backward_a
  plan_direction p flags long_n2_to_long_n1 b.backward_a src dst fftw_flags
      "fftw_mpi_plan_many_transpose returned NULL plan: plan_backwardA"
      λ q. do
        let p' = record p { plan_backward_a = q }
        debug_dump "UNDERLING_DEBUG backwardB" b.backward_b
        plan_direction p' flags long_n1_to_long_n0 b.backward_b src dst fftw_flags
            "fftw_mpi_plan_many_transpose returned NULL plan: plan_backwardB"
            λ q. plan_forward b (record p' { plan_backward_b = q }) flags src dst fftw_flags

-- The plan that `calloc` clears.
unfoldable pub initial : (p src dst : ℕ) → Plan
initial p src dst = record {
  block = p;
  in_place = src == dst;
  plan_backward_a = 0;
  plan_backward_b = 0;
  plan_forward_a = 0;
  plan_forward_b = 0;
}

unfoldable pub given : Option Problem → (Problem → M (Option Plan)) → M (Option Plan)
given none go = pure none
given (some b) go = go b

-- `underling_plan_create`.
unfoldable pub create : Option Problem → (src dst transpose_flags rigor_flags : ℕ) → M (Option Plan)
create problem src dst transpose_flags rigor_flags = do
  k ← gets (λ w. w.env.fftw)
  checked (check_arguments k problem src dst transpose_flags rigor_flags)
      (λ reason. error_null reason einval)
      (given problem λ b. do
        m ← invoke (malloc "struct underling_plan_s")
        when m.out 0 == 0
            then error_null "failed to allocate space for plan" enomem
            else plan_backward b (initial (m.out 0) src dst) (effective_flags transpose_flags) src
                dst (bit_or rigor_flags k.destroy_input))
