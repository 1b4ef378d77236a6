-- ===== src/Exchange/Back.antt =====
-- From long in n0 through long in n1 to long in n2: the forward transposes.
use underling.Common.{ℕ, ◌/◌, ◌<◌, ◌≡◌, ◌⊎◌, sym, false, inl, inr, ℤ, nonneg, some}
use underling.Extents.Defs.{Four}
use underling.Transpose.Defs.{Transpose}
use underling.Transpose.Inverse.{AreBits}
use underling.Problem.Defs.{has_flag, transposed_long_n0}
use underling.Exchange.Defs.{shape_of, Exchanges}
use underling.Exchange.Restores.{create-inverts}
use underling.Exchange.Blocks.{Blocks}
use underling.Exchange.Places.{address_of}
use underling.Exchange.Partition.{ArePositive}
use underling.Exchange.Through.{Member, All, local, create-carries}

-- Where FFTW and MPI do what is documented of them, its two flags are bits of their own, and the blocks
-- are not empty: the transposes from long in n0 to long in n1 and from there to long in n2, one after
-- the other, bring the element at an index of the domain from the address that the extents of the
-- pencil long in n0 give it, in the process of the index's blocks, to the address that those of the
-- pencil long in n2 give it in its process. The last process has one plane of n0 only, or all of n1,
-- and the one on the way one plane of n2 only, or all of n0 with the pencil long in n0 not transposed.
pub create-carries_back :
    {n0 n1 n2 : ℕ} {howmany : ℤ} {flags : ℕ} {c : Blocks} (x : Four)
    (m2 : Member n0 n1 n2 howmany flags c (x.i1 / c.n1_a) (x.i0 / c.n0_b))
    (m1 : Member n0 n1 n2 howmany flags c (x.i2 / c.n2_a) (x.i0 / c.n0_b))
    (m0 : Member n0 n1 n2 howmany flags c (x.i2 / c.n2_a) (x.i1 / c.n1_b)) {V : Type 0}
    (before middle behind : All V) (t u t' u' : Transpose)
    → ArePositive c
    → (x.i0 < n0) × (x.i1 < n1) × (x.i2 < n2)
    → x.i3 < nonneg howmany
    → AreBits m2.start.env.fftw
    → AreBits m1.start.env.fftw
    → (m2.problem.backward_a ≡ some t) × (m2.problem.forward_a ≡ some u)
    → (m1.problem.backward_b ≡ some t') × (m1.problem.forward_b ≡ some u')
    → Exchanges m1.start.env.fftw (shape_of u') (before (x.i2 / c.n2_a)) (middle (x.i2 / c.n2_a))
    → Exchanges m2.start.env.fftw
        (shape_of u)
        (λ r. middle r (x.i0 / c.n0_b))
        (λ r. behind r (x.i0 / c.n0_b))
    → (m2.problem.long_n2.size.i0 ≡ 1) ⊎ (m2.problem.long_n2.size.i1 ≡ m2.grid.n1)
    → (m1.problem.long_n1.size.i2 ≡ 1)
      ⊎ ((m1.problem.long_n1.size.i0 ≡ m1.grid.n0) × (has_flag flags transposed_long_n0 ≡ false))
    → behind
        (x.i1 / c.n1_a)
        (x.i0 / c.n0_b)
        (address_of m2.problem.long_n2 (local m2.problem.long_n2 x))
      ≡ before
          (x.i2 / c.n2_a)
          (x.i1 / c.n1_b)
          (address_of m0.problem.long_n0 (local m0.problem.long_n0 x))
create-carries_back {howmany = howmany} {flags} {c} x m2 m1 m0 before middle behind t u t' u' b l h
      bits bits' is_a is_b off home s s' =
    let moved =
      create-inverts m2.grid howmany flags m2.start m2.end m2.problem t u
        (λ r. middle r (x.i0 / c.n0_b)) (λ r. behind r (x.i0 / c.n0_b)) bits m2.created (inl is_a)
        home in
    let moved' =
      create-inverts m1.grid howmany flags m1.start m1.end m1.problem t' u' (before (x.i2 / c.n2_a))
        (middle (x.i2 / c.n2_a)) bits' m1.created (inr is_b) off in
    sym (
      create-carries x m2 m1 m0 behind middle before t t' b l h bits bits' is_a.0 is_b.0 moved
        moved' s s')
