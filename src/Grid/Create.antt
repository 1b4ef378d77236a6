-- ===== src/Grid/Create.antt =====
-- `underling_grid_create`, in the order of its statements.
use underling.Common.{
  ℕ, ◌*◌, ◌==◌, ltb, not, ◌&&◌, ◌||◌, ℤ, below, nonneg, String, Option, none, some, [], ◌∷◌,
  if◌then◌else◌,
}
use underling.Machine.{
  M, when◌then◌else◌, checked, pure, assert, ◌>>=◌, ◌>>◌, invoke, halt, overflow, malloc, comm_size,
  comm_rank, comm_set_name, dims_create, cart_create, cart_sub, snprintf_length,
}
use underling.Error.{einval, enomem, Status, error_null, mpichkn}
use underling.Extents.Defs.{int_bound}
use underling.Grid.Defs.{Grid, destroy}

-- The checks of the arguments: the reason of the first that fails.
unfoldable pub check_arguments : ℕ → (n0 n1 n2 p_a p_b : ℤ) → Option String
check_arguments comm n0 n1 n2 p_a p_b =
    if comm == 0
    then some "comm != MPI_COMM_NULL required"
    else if below n0 1
    then some "n0 >= 1 required"
    else if below n1 1
    then some "n1 >= 1 required"
    else if below n2 1
    then some "n2 >= 1 required"
    else if below p_a 0
    then some "pA >= 0 required"
    else if below p_b 0
    then some "pB >= 0 required"
    else none

-- Where neither size was asked for: the larger size for the larger of n0 and n2.
unfoldable pub align : (n0 n2 : ℕ) → ℕ × ℕ → ℕ × ℕ
align n0 n2 (d0, d1) =
    let (a, b) : ℕ × ℕ = if ltb d1 d0 then (d1, d0) else (d0, d1) in
    if ltb n2 n0 then (a, b) else (b, a)

unfoldable pub choose_dims : Grid → ℕ → ℕ → ℕ × ℕ
choose_dims g d0 d1 = if g.p_a == 0 && g.p_b == 0 then align g.n0 g.n2 (d0, d1) else (d0, d1)

-- The checks of the decomposition. The last one tests n0 and pB again, and not n2 and pA.
unfoldable pub check_decomposition : Grid → ℕ → Option String
check_decomposition g nproc =
    if not (g.p_a * g.p_b == nproc)
    then some "Invalid processor grid: pA * pB != nproc"
    else if ltb g.n0 g.p_b
    then some "Decomposition requires n0 >= pB"
    else if ltb g.n1 g.p_a || ltb g.n1 g.p_b
    then some "Decomposition requires n1 >= pA, pB"
    else if ltb g.n0 g.p_b
    then some "Decomposition requires n2 >= pA"
    else none

-- The two ways out after the allocation: the grid is destroyed, and the error is reported.
unfoldable pub fail : Grid → String → Status → M (Option Grid)
fail g reason e = destroy (some g) >> error_null reason e

unfoldable pub fail_mpi : Grid → ℕ → M (Option Grid)
fail_mpi g status = destroy (some g) >> mpichkn status

unfoldable pub name_comms : Grid → (p_a_rank p_b_rank : ℕ) → M (Option Grid)
name_comms g p_a_rank p_b_rank = do
  a ← invoke (snprintf_length g.p_a)
  b ← invoke (snprintf_length g.p_b)
  assert (ltb 0 (a.out 0))
  assert (ltb 0 (b.out 0))
  r ←
      invoke
        (comm_set_name g.g_comm "uGComm%0*dx%0*d" (a.out 0 ∷ p_a_rank ∷ b.out 0 ∷ p_b_rank ∷ []))
  when not (r.status == 0) then fail_mpi g r.status else do
    r ← invoke (comm_set_name g.p_a_comm "uPACommXx%0*d" (b.out 0 ∷ p_b_rank ∷ []))
    when not (r.status == 0) then fail_mpi g r.status else do
      r ← invoke (comm_set_name g.p_b_comm "uPBComm%0*dxX" (a.out 0 ∷ p_a_rank ∷ []))
      when not (r.status == 0) then fail_mpi g r.status else pure (some g)

unfoldable pub split_p_b : Grid → ℕ → M (Option Grid)
split_p_b g p_a_rank = do
  r ← invoke (cart_sub g.g_comm 0 1)
  let g' = record g { p_b_comm = r.out 0 }
  when not (r.status == 0) then fail_mpi g' r.status else do
    k ← invoke (comm_rank g'.p_b_comm)
    when not (k.status == 0) then fail_mpi g' k.status else name_comms g' p_a_rank (k.out 0)

unfoldable pub split_p_a : Grid → M (Option Grid)
split_p_a g = do
  r ← invoke (cart_sub g.g_comm 1 0)
  let g' = record g { p_a_comm = r.out 0 }
  when not (r.status == 0) then fail_mpi g' r.status else do
    k ← invoke (comm_rank g'.p_a_comm)
    when not (k.status == 0) then fail_mpi g' k.status else split_p_b g' (k.out 0)

unfoldable pub make_topology : Grid → ℕ → M (Option Grid)
make_topology g comm = do
  r ← invoke (cart_create comm g.p_a g.p_b)
  let g' = record g { g_comm = r.out 0 }
  when not (r.status == 0) then fail_mpi g' r.status else split_p_a g'

-- pA * pB is a product of two `int`.
unfoldable pub decompose : Grid → ℕ → M (Option Grid)
decompose g comm = do
  s ← invoke (comm_size comm)
  when not (s.status == 0) then fail_mpi g s.status else do
    r ← invoke (dims_create (s.out 0) g.p_a g.p_b)
    when not (r.status == 0) then fail_mpi g r.status else do
      let dims = choose_dims g (r.out 0) (r.out 1)
      let g' = record g { p_a = dims.0; p_b = dims.1 }
      when not (ltb (g'.p_a * g'.p_b) int_bound)
          then halt overflow
          else checked (check_decomposition g' (s.out 0)) (λ reason. fail g' reason einval)
              (make_topology g' comm)

-- The grid as it is initialised in a fresh block.
unfoldable pub initial : ℕ → (n0 n1 n2 p_a p_b : ℕ) → Grid
initial p n0 n1 n2 p_a p_b = record {
  block = p;
  n0 = n0;
  n1 = n1;
  n2 = n2;
  p_a = p_a;
  p_b = p_b;
  g_comm = 0;
  p_a_comm = 0;
  p_b_comm = 0;
}

-- `underling_grid_create`.
unfoldable pub create : ℕ → (n0 n1 n2 p_a p_b : ℤ) → M (Option Grid)
create comm n0 n1 n2 p_a p_b =
    checked (check_arguments comm n0 n1 n2 p_a p_b) (λ reason. error_null reason einval)
      do
        r ← invoke (malloc "struct underling_grid_s")
        when r.out 0 == 0
            then error_null "failed to allocate space for grid" enomem
            else decompose
                (initial (r.out 0) (nonneg n0) (nonneg n1) (nonneg n2) (nonneg p_a) (nonneg p_b))
                comm
