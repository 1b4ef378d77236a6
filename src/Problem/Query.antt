-- ===== src/Problem/Query.antt =====
-- The queries of a problem: memory and extents.
use underling.Common.{
  ℕ, ◌*◌, ◌==◌, ltb, not, ◌||◌, ℤ, Bool, below, nonneg, Option, none, some, String, if◌then◌else◌,
}
use underling.Machine.{
  M, when◌then◌else◌, pure, halt, overflow, ◌>>=◌, ◌>>◌, invoke, allreduce, null_access,
}
use underling.Error.{einval, error_val, mpichkr}
use underling.Extents.Defs.{Four, Extents, invalid, int_bound}
use underling.Grid.Defs.{Grid}
use underling.Problem.Defs.{Problem}

-- `underling_local_memory`.
unfoldable pub local_memory : Option Problem → M ℕ
local_memory none = error_val "problem == NULL" einval 0
local_memory (some p) = pure p.local_memory

abbrev pub larger : ℕ → ℕ → ℕ
larger a b = if ltb a b then b else a

-- `underling_local_memory_optimum`, which does not test its argument for NULL.
unfoldable pub local_memory_optimum : Option Problem → M ℕ
local_memory_optimum none = halt null_access
local_memory_optimum (some p) =
    pure (larger (larger p.long_n0.extent p.long_n1.extent) p.long_n2.extent)

-- `underling_local_memory_allreduce`.
unfoldable pub local_memory_allreduce : String → Option Grid → Option Problem → M ℕ
local_memory_allreduce op none problem = error_val "grid == NULL" einval 0
local_memory_allreduce op (some g) none = error_val "problem == NULL" einval 0
local_memory_allreduce op (some g) (some p) = do
  v ← local_memory (some p)
  r ← invoke (allreduce op v g.g_comm)
  when not (r.status == 0) then (mpichkr r.status >> pure 0) else pure (r.out 0)

-- `underling_local_memory_maximum`, `underling_local_memory_minimum`, `underling_global_memory`.
unfoldable pub local_memory_maximum : Option Grid → Option Problem → M ℕ
local_memory_maximum = local_memory_allreduce "MPI_MAX"

unfoldable pub local_memory_minimum : Option Grid → Option Problem → M ℕ
local_memory_minimum = local_memory_allreduce "MPI_MIN"

unfoldable pub global_memory : Option Grid → Option Problem → M ℕ
global_memory = local_memory_allreduce "MPI_SUM"

-- A product of two `int`s, which may not overflow.
unfoldable pub int_mul : ℕ → ℕ → M ℕ
int_mul a b = when ltb (a * b) int_bound then pure (a * b) else halt overflow

-- `underling_global_memory_optimum`: the product is computed in `int`.
unfoldable pub global_memory_optimum : Option Grid → Option Problem → M ℕ
global_memory_optimum none problem = error_val "grid == NULL" einval 0
global_memory_optimum (some g) none = error_val "problem == NULL" einval 0
global_memory_optimum (some g) (some p) = do
  a ← int_mul p.howmany g.n0
  b ← int_mul a g.n1
  int_mul b g.n2

unfoldable pub pencil : Problem → ℕ → Extents
pencil p i = if i == 0 then p.long_n0 else if i == 1 then p.long_n1 else p.long_n2

abbrev pub bad_direction : ℤ → Bool
bad_direction i = below i 0 || not (below i 3)

-- `underling_local_extents`.
unfoldable pub local_extents : Option Problem → ℤ → M Extents
local_extents problem i =
    when bad_direction i then error_val "i < 0 or i > 2" einval invalid else (elim problem [
      | none ↦ error_val "problem == NULL" einval invalid
      | some p ↦ pure (pencil p (nonneg i))
    ])

-- What `underling_local` writes through each of its pointers, and what it returns.
pub record LocalCopy : Type 0 where
  pub start : Option Four
  pub size : Option Four
  pub stride : Option Four
  pub order : Option Four
  pub extent : ℕ

abbrev pub nothing_copied : LocalCopy
nothing_copied = record { start = none; size = none; stride = none; order = none; extent = 0 }

-- The copy of one array, where its pointer is not NULL.
abbrev pub copied : Bool → Four → Option Four
copied wanted a = if wanted then some a else none

-- `underling_local`, with four flags that say which pointers are not NULL.
unfoldable pub local : Option Problem → ℤ → (start size stride order : Bool) → M LocalCopy
local problem i start size stride order =
    when bad_direction i then error_val "i < 0 or i > 2" einval nothing_copied else (elim problem [
      | none ↦ error_val "problem == NULL" einval nothing_copied
      | some p ↦
          let e = pencil p (nonneg i) in
          pure (record {
            start = copied start e.start;
            size = copied size e.size;
            stride = copied stride e.stride;
            order = copied order e.order;
            extent = e.extent;
          })
    ])
