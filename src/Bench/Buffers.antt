-- ===== src/Bench/Buffers.antt =====
-- The buffers of the fields in the benchmark, and what its `main` does to all of them.
use underling.Common.{
  ℕ, zero, suc, ◌==◌, not, pos, List, [], ◌∷◌, Option, none, some, leb, if◌then◌else◌,
}
use underling.Machine.{
  M, when◌then◌else◌, pure, halt, ◌>>=◌, ◌>>◌, assert, invoke, perform, fftw_malloc, fftw_free,
  mpi_abort, aborted, out_of_bounds,
}
use underling.Error.{Status}
use underling.Grid.Defs.{Grid}
use underling.Problem.Defs.{Problem}
use underling.Problem.Query.{
  local_memory_optimum, local_memory_minimum, local_memory_maximum, global_memory,
  global_memory_optimum, local_extents,
}
use underling.Fftw.Defs.{FftwPlan}
use underling.Bench.Defs.{add32}
use underling.Bench.Pass.{turn}
use underling.Fftw

-- `calloc_field`: the memory is there, or the program is aborted.
unfoldable pub calloc_field : ℕ → M ℕ
calloc_field bytes = do
  p ← invoke (fftw_malloc bytes)
  when p.out 0 == 0 then (perform mpi_abort >> halt aborted) else pure (p.out 0)

-- The loops over `f`.
unfoldable pub calloc_fields : (count bytes : ℕ) → M (List ℕ)
calloc_fields zero bytes = pure []
calloc_fields (suc n) bytes = do
  p ← calloc_field bytes
  assert (not (p == 0))
  rest ← calloc_fields n bytes
  pure (p ∷ rest)

unfoldable pub free_fields : List ℕ → M (Unit {0})
free_fields [] = pure tt
free_fields (p ∷ f) = perform (fftw_free p) >> free_fields f

-- `f[i]`.
unfoldable pub field_at : List ℕ → ℕ → M ℕ
field_at [] i = halt out_of_bounds
field_at (p ∷ f) zero = pure p
field_at (p ∷ f) (suc i) = field_at f i

-- One operation on every field, `done` of which are left to do; its status is not used.
unfoldable pub sweep :
    (ℕ → ℕ → M Status) → (f : List ℕ) → (o : ℕ → ℕ) → (m nfields done : ℕ) → M (Unit {0})
sweep op f o m nfields zero = pure tt
sweep op f o m nfields (suc j) = do
  sweep op f o m nfields j
  let k = turn m nfields j
  src ← field_at f (o k)
  dst ← field_at f (add32 (o k) m)
  op src dst
  pure tt

-- Three plans for the directions, of which some are NULL.
pub record Transforms : Type 0 where
  pub plan0 : Option FftwPlan
  pub plan1 : Option FftwPlan
  pub plan2 : Option FftwPlan

-- `if (forward_plan[i])`.
abbrev pub if_planned : Option FftwPlan → ((ℕ → ℕ → M Status) → M (Unit {0})) → M (Unit {0})
if_planned none go = pure tt
if_planned (some p) go = go (Fftw.Defs.execute (some p))

-- The check of the round trip asks for the extents once for each field.
unfoldable pub check_fields : Option Problem → (local_memory count : ℕ) → M (Unit {0})
check_fields problem memory zero = pure tt
check_fields problem memory (suc n) = do
  e ← local_extents problem (pos 2)
  assert (leb e.extent memory)
  check_fields problem memory n

unfoldable pub destroy_transforms : Transforms → M (Unit {0})
destroy_transforms t = do
  Fftw.Defs.destroy t.plan0
  Fftw.Defs.destroy t.plan1
  Fftw.Defs.destroy t.plan2

-- The memory that is displayed.
unfoldable pub display_memory : Option Grid → Option Problem → M (Unit {0})
display_memory grid problem = do
  local_memory_optimum problem
  local_memory_minimum grid problem
  local_memory_maximum grid problem
  local_memory_optimum problem
  local_memory_maximum grid problem
  global_memory_optimum grid problem
  global_memory grid problem
  pure tt
