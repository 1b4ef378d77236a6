-- ===== src/Bench/Main/Calls.antt =====
-- The operations of the library that the benchmark uses and that neither take nor give back
-- anything: the queries, the executions, the start and the end.
use underling.Common.{ℕ, ◌≡◌, refl, ℤ, Bool, String, Option, none, some, arith}
use underling.Machine.{Env, M, ◌>>◌, perform, Call}
use underling.Machine.Count.{Resource, gains, losses}
use underling.Machine.Spends.{
  Spends, pure_, halt_, branch, spend, assert_, aside, pass, ask, checked_,
}
use underling.Error.{Status, einval, error_code}
use underling.Error.Laws.{error_val-Spends, mpichkr-Spends}
use underling.Grid.Defs.{Grid}
use underling.Problem.Defs.{Problem}
use underling.Problem.Query.{
  local_memory, local_memory_optimum, global_memory_optimum, local_memory_allreduce, int_mul,
}
use underling.Plan.Defs.{Plan, execute as execute_plan}
use underling.Fftw.Defs.{
  FftwPlan, TransformType, unspecified, c2c_forward, c2c_backward, c2r_backward, r2c_forward,
  reorder, transform, execute,
}
use underling.Init.{
  init, cleanup, only_init, only_cleanup, init_fftw, plan_with, choose_threads, init_threads,
}

module _ {E : Env → Type 0} (r : Resource) where
  pub error_code-Spends :
      (reason : String) (e : Status) → Spends E r 0 (error_code reason e) (λ _. 0)
  unfolding error_code
  error_code-Spends reason e = error_val-Spends r reason e e (λ _. 0)

  pub local_memory-Spends : (p : Option Problem) → Spends E r 0 (local_memory p) (λ _. 0)
  unfolding local_memory
  local_memory-Spends none = error_val-Spends r _ einval _ _
  local_memory-Spends (some p) = pure_ _ refl

  pub local_memory_optimum-Spends :
      (p : Option Problem) → Spends E r 0 (local_memory_optimum p) (λ _. 0)
  unfolding local_memory_optimum
  local_memory_optimum-Spends none = halt_ _
  local_memory_optimum-Spends (some p) = pure_ _ refl

  pub local_memory_allreduce-Spends :
      (op : String) (g : Option Grid) (p : Option Problem)
      → Spends E r 0 (local_memory_allreduce op g p) (λ _. 0)
  unfolding local_memory_allreduce gains losses
  local_memory_allreduce-Spends op none p = error_val-Spends r _ einval _ _
  local_memory_allreduce-Spends op (some g) none = error_val-Spends r _ einval _ _
  local_memory_allreduce-Spends op (some g) (some p) = aside (local_memory-Spends (some p)) λ v.
      ask _ refl (λ s o. refl) (λ s. aside (mpichkr-Spends r _) λ _. pure_ _ refl)
        (λ s. pure_ _ refl)

  int_mul-Spends : (a b : ℕ) → Spends E r 0 (int_mul a b) (λ _. 0)
  unfolding int_mul
  int_mul-Spends a b = branch (λ _. pure_ _ refl) λ _. halt_ _

  pub global_memory_optimum-Spends :
      (g : Option Grid) (p : Option Problem) → Spends E r 0 (global_memory_optimum g p) (λ _. 0)
  unfolding global_memory_optimum
  global_memory_optimum-Spends none p = error_val-Spends r _ einval _ _
  global_memory_optimum-Spends (some g) none = error_val-Spends r _ einval _ _
  global_memory_optimum-Spends (some g) (some p) =
      aside (int_mul-Spends _ _) λ a. aside (int_mul-Spends _ _) λ b. int_mul-Spends _ _

  pub execute_plan-Spends :
      (reason : String) (select : Plan → ℕ) (p : Option Plan) (src dst : ℕ)
      → Spends E r 0 (execute_plan reason select p src dst) (λ _. 0)
  unfolding execute_plan gains losses
  execute_plan-Spends reason select none src dst = error_code-Spends _ einval
  execute_plan-Spends reason select (some p) src dst =
      branch (λ _. error_code-Spends _ einval)
        λ _.
          checked_ (λ reason. error_code-Spends _ einval)
            λ _. aside (spend _ refl (λ s o. refl)) λ _. pure_ _ refl

  reorder-Spends :
      (f : FftwPlan) (plan src dst : ℕ) → Spends E r 0 (reorder f plan src dst) (λ _. 0)
  unfolding reorder gains losses
  reorder-Spends f plan src dst =
      branch (λ _. pure_ _ refl) λ _. aside (assert_ _) λ _. spend _ refl (λ s o. refl)

  transform-Spends :
      (t : TransformType) (f : FftwPlan) (src dst : ℕ) (go : M Status)
      → Spends E r 0 go (λ _. 0)
      → Spends E r 0 (transform t f src dst go) (λ _. 0)
  unfolding transform gains losses
  transform-Spends unspecified f src dst go p = error_code-Spends _ _
  transform-Spends c2c_forward f src dst go p = aside (spend _ refl (λ s o. refl)) λ _. p
  transform-Spends c2c_backward f src dst go p = aside (spend _ refl (λ s o. refl)) λ _. p
  transform-Spends c2r_backward f src dst go p = aside (spend _ refl (λ s o. refl)) λ _. p
  transform-Spends r2c_forward f src dst go p = aside (spend _ refl (λ s o. refl)) λ _. p

  pub execute-Spends :
      (f : Option FftwPlan) (src dst : ℕ) → Spends E r 0 (execute f src dst) (λ _. 0)
  unfolding execute
  execute-Spends none src dst = error_code-Spends _ einval
  execute-Spends (some f) src dst =
      checked_ (λ reason. error_code-Spends _ einval)
        λ _. aside (reorder-Spends f _ src dst) λ _.
          transform-Spends f.type f src dst _ (aside (reorder-Spends f _ src dst) λ _. pure_ _ refl)

  -- A call that hands out nothing and takes nothing.
  quiet :
      {A : Type 0} {m : M A} (c : Call)
      → losses r c ≡ 0
      → ((s o : ℕ) → gains r c s o ≡ 0)
      → Spends E r 0 m (λ _. 0)
      → Spends E r 0 (perform c >> m) (λ _. 0)
  quiet c l g p = aside (spend c (omega (arith, l)) g) λ _. p

  plan_with-Spends : (n : ℤ) → Spends E r 0 (plan_with n) (λ _. 0)
  unfolding plan_with init_fftw only_init gains losses
  plan_with-Spends n = quiet _ refl (λ s o. refl) (quiet _ refl (λ s o. refl) (pure_ _ refl))

  init_threads-Spends : (threads : Bool) (n : ℤ) → Spends E r 0 (init_threads threads n) (λ _. 0)
  unfolding init_threads init_fftw only_init choose_threads gains losses
  init_threads-Spends threads n =
      branch (λ _. quiet _ refl (λ s o. refl) (pure_ _ refl))
        λ _.
          pass _ refl (λ s o. refl)
            λ t.
              branch (λ _. error_code-Spends _ _)
                λ _.
                  branch (λ _. plan_with-Spends n)
                    λ _.
                      pass _ refl (λ s o. refl)
                        λ v.
                          branch (λ _. plan_with-Spends _)
                            λ _. branch (λ _. error_code-Spends _ _) λ _. plan_with-Spends _

  pub init-Spends : (threads : Bool) (n : ℤ) → Spends E r 0 (init threads n) (λ _. 0)
  unfolding init gains losses
  init-Spends threads n =
      ask _ refl (λ s o. refl) (λ s. aside (mpichkr-Spends r _) λ _. pure_ _ refl)
        λ q.
          branch (λ _. init_threads-Spends threads n)
            λ _.
              ask _ refl (λ s o. refl) (λ s. aside (mpichkr-Spends r _) λ _. pure_ _ refl)
                λ i. init_threads-Spends threads n

  pub cleanup-Spends : (threads : Bool) → Spends E r 0 (cleanup threads) (λ _. 0)
  unfolding cleanup only_cleanup gains losses
  cleanup-Spends threads =
      quiet _ refl (λ s o. refl)
        (aside (branch (λ _. spend _ refl (λ s o. refl)) λ _. pure_ _ refl) λ _. pure_ _ refl)
