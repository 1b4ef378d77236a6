-- ===== src/Grid/Decomposition.antt =====
-- What the choice and the check of the processor grid decide.
use underling.Common.{ℕ, ◌*◌, ◌≤◌, ◌<◌, ◌≡◌, ◌↔◌, ◌⊎◌, none, arith}
use underling.Grid.Defs.{Grid}
use underling.Grid.Create.{align, check_decomposition}

-- A decomposition passes the check exactly if it uses all processes and pB fits n0 and n1, and pA
-- fits n1. Nothing is asked of n2.
pub check_decomposition-none_iff :
    (g : Grid) (nproc : ℕ)
    → (check_decomposition g nproc ≡ none)
      ↔ ((g.p_a * g.p_b ≡ nproc) × (g.p_b ≤ g.n0) × (g.p_a ≤ g.n1) × (g.p_b ≤ g.n1))
unfolding check_decomposition
check_decomposition-none_iff g nproc = (λ h. ground arith, λ h. ground arith)

-- The two sizes that MPI chose are kept or exchanged; the second, pB, is the larger one where n0 is
-- the larger of n0 and n2, and else the first, pA, is.
pub align_lem :
    (n0 n2 d0 d1 : ℕ)
    → let d = align n0 n2 (d0, d1) in
      (((d.0 ≡ d0) × (d.1 ≡ d1)) ⊎ ((d.0 ≡ d1) × (d.1 ≡ d0)))
      × (((n2 < n0) × (d.0 ≤ d.1)) ⊎ ((n0 ≤ n2) × (d.1 ≤ d.0)))
unfolding align
align_lem n0 n2 d0 d1 = ground arith
