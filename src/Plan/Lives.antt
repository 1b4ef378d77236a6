-- ===== src/Plan/Lives.antt =====
-- From a grid to the executions of a plan.
use mathlib.Core.Path.{subst}
use underling.Common.{ℕ, ◌≡◌, ◌≢◌, sym, ℤ, nonneg, none, some}
use underling.Machine.{World, ok, mpi_execute_r2r}
use underling.Machine.At.{after_call}
use underling.Machine.Works.{Works}
use underling.Error.{success}
use underling.Grid.Defs.{Grid}
use underling.Problem.Defs.{Problem}
use underling.Problem.Success.{AreTheFlags, Fits, create-succeeds}
use underling.Problem
use underling.Plan.Defs.{
  Plan, execute_long_n2_to_long_n1, execute_long_n1_to_long_n0, execute_long_n0_to_long_n1,
  execute_long_n1_to_long_n2,
}
use underling.Plan.Create.{check_arguments, create}
use underling.Plan.Success.{create-succeeds_plan}
use underling.Plan.Execute.{create-executes}

-- Each of the four executions succeeds, with the one call of FFTW.
abbrev pub Executes : Plan → (src dst : ℕ) → World → Type 0
Executes p src dst u =
    (execute_long_n2_to_long_n1 (some p) src dst u
      ≡ ok success (after_call (mpi_execute_r2r p.plan_backward_a src dst) u))
    × (execute_long_n1_to_long_n0 (some p) src dst u
        ≡ ok success (after_call (mpi_execute_r2r p.plan_backward_b src dst) u))
    × (execute_long_n0_to_long_n1 (some p) src dst u
        ≡ ok success (after_call (mpi_execute_r2r p.plan_forward_b src dst) u))
    × (execute_long_n1_to_long_n2 (some p) src dst u
        ≡ ok success (after_call (mpi_execute_r2r p.plan_forward_a src dst) u))

-- Where every call does its work, the communicators of the grid are not NULL, the arguments
-- pass their checks, FFTW's two flags have no other bits, and what the creation computes of
-- its shares fits an `int`: a problem and then a plan for it are created, and the plan
-- executes on its buffers in each of the four directions.
pub create-lives :
    (g : Grid) (howmany : ℤ) (flags src dst directions rigor : ℕ) (w : World)
    → Works w.env
    → AreTheFlags w.env.fftw
    → g.p_a_comm ≢ 0
    → g.p_b_comm ≢ 0
    → Fits w.env g (nonneg howmany) flags
    → Problem.Create.check_arguments (some g) howmany flags ≡ none
    → ((b : Problem) → check_arguments w.env.fftw (some b) src dst directions rigor ≡ none)
    → (b : Problem) × (w1 : World) × (Problem.Create.create (some g) howmany flags w
        ≡ ok (some b) w1)
      × (p : Plan) × (w2 : World) × (create (some b) src dst directions rigor w1 ≡ ok (some p) w2)
      × ((u : World) → Executes p src dst u)
create-lives g howmany flags src dst directions rigor w works two ha hb fits h h' =
    let (b, w1, i, whole, k) = create-succeeds g howmany flags w works two ha hb fits h in
    let (p, w2, j) =
      create-succeeds_plan b src dst directions rigor w1 (subst Works (sym k) works) whole (
        subst (λ e. check_arguments e.fftw (some b) src dst directions rigor ≡ none) (sym k)
          (h' b)) in
    (b, w1, i, p, w2, j, λ u. create-executes (some b) src dst directions rigor w1 w2 u p j)
