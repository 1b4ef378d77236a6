-- ===== src/Plan/Defs.antt =====
-- The plan's data, its destruction and its execution.
use underling.Common.{ℕ, ◌==◌, Bool, String, Option, none, some, if◌then◌else◌}
use underling.Machine.{
  M, when◌then◌else◌, checked, pure, ◌>>◌, perform, free, destroy_plan, mpi_execute_r2r,
}
use underling.Error.{Status, success, einval, error_code}

-- `struct underling_plan_s`, with the address of its memory block.
pub record Plan : Type 0 where
  pub block : ℕ
  pub in_place : Bool
  pub plan_backward_a : ℕ
  pub plan_backward_b : ℕ
  pub plan_forward_a : ℕ
  pub plan_forward_b : ℕ

-- `fftw_destroy_plan` of a plan that is not NULL.
unfoldable pub release_plan : ℕ → M (Unit {0})
release_plan p = when p == 0 then pure tt else perform (destroy_plan p)

-- `underling_plan_destroy`.
unfoldable pub destroy : Option Plan → M (Unit {0})
destroy none = pure tt
destroy (some p) = do
  release_plan p.plan_backward_a
  release_plan p.plan_backward_b
  release_plan p.plan_forward_a
  release_plan p.plan_forward_b
  perform (free p.block)

-- The checks of the buffers against the way in which the plan was made.
unfoldable pub check_buffers : (in_place : Bool) → (src dst : ℕ) → Option String
check_buffers in_place src dst =
    if src == 0
    then some "in == NULL"
    else if dst == 0
    then some "out == NULL"
    else if in_place
    then (if src == dst then none else some "in-place plan but in != out")
    else (if src == dst then some "out-of-place plan but in == out" else none)

-- The four functions `underling_execute_long_n*_to_long_n*` differ in the plan that they run.
unfoldable pub execute : String → (Plan → ℕ) → Option Plan → (src dst : ℕ) → M Status
execute null_plan select none src dst = error_code "plan == NULL" einval
execute null_plan select (some p) src dst =
    when select p == 0
    then error_code null_plan einval
    else checked (check_buffers p.in_place src dst) (λ reason. error_code reason einval)
        do perform (mpi_execute_r2r (select p) src dst); pure success

unfoldable pub execute_long_n2_to_long_n1 : Option Plan → (src dst : ℕ) → M Status
execute_long_n2_to_long_n1 = execute "plan->plan_backwardA == NULL" (λ p. p.plan_backward_a)

unfoldable pub execute_long_n1_to_long_n0 : Option Plan → (src dst : ℕ) → M Status
execute_long_n1_to_long_n0 = execute "plan->plan_backwardB == NULL" (λ p. p.plan_backward_b)

unfoldable pub execute_long_n0_to_long_n1 : Option Plan → (src dst : ℕ) → M Status
execute_long_n0_to_long_n1 = execute "plan->plan_forwardB == NULL" (λ p. p.plan_forward_b)

unfoldable pub execute_long_n1_to_long_n2 : Option Plan → (src dst : ℕ) → M Status
execute_long_n1_to_long_n2 = execute "plan->plan_forwardA == NULL" (λ p. p.plan_forward_a)
