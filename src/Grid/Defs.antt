-- ===== src/Grid/Defs.antt =====
-- The grid's data, its destruction and its accessors.
use underling.Common.{ℕ, ◌==◌, Option, none, some}
use underling.Machine.{
  M, when◌then◌else◌, pure, ◌>>=◌, ◌>>◌, invoke, perform, comm_free, comm_size, free,
}
use underling.Error.{einval, error_val, mpichkr, reporting}

-- `struct underling_grid_s`, with the address of its memory block. A pointer to one is an
-- `Option Grid`. The sizes are positive once the arguments are checked.
pub record Grid : Type 0 where
  pub block : ℕ
  pub n0 : ℕ
  pub n1 : ℕ
  pub n2 : ℕ
  pub p_a : ℕ
  pub p_b : ℕ
  pub g_comm : ℕ
  pub p_a_comm : ℕ
  pub p_b_comm : ℕ

-- `MPI_Comm_free` of a communicator that is not MPI_COMM_NULL, its failure reported.
unfoldable pub release_comm : ℕ → M (Unit {0})
release_comm c = when c == 0 then pure tt else do r ← invoke (comm_free c); mpichkr r.status

-- `underling_grid_destroy`.
unfoldable pub destroy : Option Grid → M (Unit {0})
destroy none = pure tt
destroy (some g) = do
  release_comm g.g_comm
  release_comm g.p_a_comm
  release_comm g.p_b_comm
  perform (free g.block)

unfoldable pub size_of : ℕ → M ℕ
size_of c = do
  r ← invoke (comm_size c)
  when r.status == 0 then pure (r.out 0) else mpichkr r.status >> pure 0

-- `underling_grid_pA_size` and `underling_grid_pB_size`.
unfoldable pub p_a_size : Option Grid → M ℕ
p_a_size none = error_val "grid == NULL" einval 0
p_a_size (some g) = size_of g.p_a_comm

unfoldable pub p_b_size : Option Grid → M ℕ
p_b_size none = error_val "grid == NULL" einval 0
p_b_size (some g) = size_of g.p_b_comm

-- For a proof that computes these.
unfoldable pub releasing : Unit {0}
unfolding reporting release_comm destroy
releasing = tt
