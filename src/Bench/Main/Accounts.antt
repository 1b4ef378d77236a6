-- ===== src/Bench/Main/Accounts.antt =====
-- What the benchmark takes it gives back.
use underling.Common.{ℕ, ◌+◌, ◌≡◌, refl, ℤ, nonneg, Bool, List, Option, some, arith}
use underling.Machine.{Env, M, World, ok, ◌>>=◌, ◌>>◌}
use underling.Machine.Count.{Resource, Accounts, gains, losses}
use underling.Machine.Spends.{
  Spends, seq, pass, pure_, halt_, branch, spend, assert_, same, aside, gets_,
}
use underling.FftwExtents.Defs.{Five}
use underling.Error.Laws.{mpichkr-Spends}
use underling.Machine.Grants.{insist}
use underling.Grid.Grants.{create-Grants}
use underling.Grid.Defs.{Grid, size_of, p_a_size, p_b_size}
use underling.Grid.Accounts as grids
use underling.Problem.Defs.{Problem}
use underling.Problem.Accounts as problems
use underling.Problem.Accounts.{BcastSucceeds, owned_problem}
use underling.Plan.Defs.{
  Plan, execute_long_n2_to_long_n1, execute_long_n1_to_long_n0, execute_long_n0_to_long_n1,
  execute_long_n1_to_long_n2,
}
use underling.Plan
use underling.Plan.Accounts as plans
use underling.Bench.Defs.{Details}
use underling.Bench.Main.{main_loop, check_round_trip, run_plans, run_problem, run_grid, main}
use underling.Bench.Buffers.{free_fields, Transforms, destroy_transforms}
use underling.Bench.Main.Calls.{init-Spends, cleanup-Spends, local_memory-Spends}
use underling.Bench.Main.Steps.{
  owned_fields, owned_transforms, calloc_fields-Spends, free_fields-Spends, field_at-Spends,
  destroy_transforms-Spends, display_memory-Spends, make_forward-Spends, make_backward-Spends,
  main_loop-Spends, check_round_trip-Spends,
}

-- A step that adds to the holdings, and one that gives a part of them back.
module _ {E : Env → Type 0} {r : Resource} where
  gather :
      {A B : Type 0} {m : M A} {k : A → M B} {b : A → ℕ} {c : B → ℕ} {x : ℕ}
      → Spends E r 0 m b
      → ((v : A) → Spends E r (x + b v) (k v) c)
      → Spends E r x (m >>= k) c
  gather {x} p q = seq {a = 0} x (omega arith) p (λ v. same (omega arith) (q v))

  release :
      {A B : Type 0} {m : M A} {k : A → M B} {c : B → ℕ} {a x : ℕ} (rest : ℕ)
      → x ≡ rest + a
      → Spends E r a m (λ _. 0)
      → ((v : A) → Spends E r rest (k v) c)
      → Spends E r x (m >>= k) c
  release rest e p q = seq rest (omega arith) p (λ v. same (omega arith) (q v))

module _ {E : Env → Type 0} (r : Resource) where
  size_of-Spends : (c : ℕ) → Spends E r 0 (size_of c) (λ _. 0)
  unfolding size_of gains losses
  size_of-Spends c =
      pass _ refl (λ s o. refl)
        λ s. branch (λ _. pure_ _ refl) λ _. aside (mpichkr-Spends r _) λ _. pure_ _ refl

  module _ {R : Type 0} (d : Details R) where
    finish-Spends :
        (p : Option Problem) (memory : ℕ) (f : List ℕ) (t : Option Plan) (u v : Transforms)
        → Spends E r
            (owned_fields r f + owned_transforms r v + owned_transforms r u + plans.owned? r t)
            (main_loop d (nonneg d.repeat) t u v f
              >> (check_round_trip d p memory
                  >> (free_fields f
                      >> (destroy_transforms v >> (destroy_transforms u >> Plan.Defs.destroy t)))))
            (λ _. 0)
    finish-Spends p memory f t u v =
        let a = owned_transforms r u in
        let b = plans.owned? r t in
        aside (main_loop-Spends r d _ t u v f) λ _.
          aside (check_round_trip-Spends r d p memory) λ _.
            release (owned_transforms r v + a + b) (omega arith) (free_fields-Spends r f) λ _.
              release (a + b) (omega arith) (destroy_transforms-Spends r v) λ _.
                release b (omega arith) (destroy_transforms-Spends r u)
                  λ _. plans.destroy-Spends r t

    run_plans-Spends :
        (memcmp : Five → Five → ℤ) (p : Option Problem) (memory : ℕ) (f : List ℕ)
        → Spends E r (owned_fields r f) (run_plans d memcmp p memory f) (λ _. 0)
    unfolding run_plans
    run_plans-Spends memcmp p memory f = aside (field_at-Spends r f _) λ src.
        aside (field_at-Spends r f _) λ dst. gather (plans.create-Spends r p src dst _ _) λ t.
          aside (gets_ _) λ k. gather (make_forward-Spends r d p _ _ f _) λ f2.
            gather (make_backward-Spends r d memcmp f2 f) λ b2.
              gather (make_forward-Spends r d p _ _ f _) λ f1.
                gather (make_backward-Spends r d memcmp f1 f) λ b1.
                  gather (make_forward-Spends r d p _ _ f _) λ f0.
                    gather (make_backward-Spends r d memcmp f0 f)
                      λ b0. same (omega arith) (finish-Spends p memory f t _ _)

module _ (r : Resource) {R : Type 0} (memcmp : Five → Five → ℤ) where
  run_problem-Spends :
      (d : Details R) (g : Option Grid) → Spends BcastSucceeds r 0 (run_problem d memcmp g) (λ _. 0)
  unfolding run_problem
  run_problem-Spends d g = gather (problems.create-Spends r g _ _) λ p. aside (assert_ _) λ _.
      aside (local_memory-Spends r p) λ memory. aside (display_memory-Spends r g p) λ _.
        gather (calloc_fields-Spends r _ _) λ f.
          release (owned_problem r p) (omega arith) (run_plans-Spends r d memcmp p memory f)
            λ _. problems.destroy-Spends r p

  run_grid-Spends :
      (d : Details R) (world : ℕ) → Spends BcastSucceeds r 0 (run_grid d memcmp world) (λ _. 0)
  unfolding run_grid p_a_size p_b_size gains losses
  run_grid-Spends d world =
      branch
        (λ _. insist _ (create-Grants r world _ _ _ _ _) λ g.
          aside (size_of-Spends r g.p_a_comm) λ _. aside (size_of-Spends r g.p_b_comm) λ _.
            release (grids.owned r g) (omega arith) (run_problem-Spends d (some g))
              λ _. grids.destroy-Spends r (some g))
        (λ _. aside (spend _ refl (λ s o. refl)) λ _. halt_ _)

  module _ (cube : Details R → ℤ) (threads : Bool) where
    main-Spends :
        (world : ℕ) (d : Details R)
        → Spends BcastSucceeds r 0 (main memcmp cube threads world d) (λ _. 0)
    unfolding main
    main-Spends world d =
        aside (init-Spends r threads _)
          λ _. aside (run_grid-Spends _ world) λ _. cleanup-Spends r threads

    -- Where broadcasts do not fail, and whatever the options are and the other calls answer: a
    -- benchmark that comes to its end has given back every block, communicator, FFTW plan and field
    -- as often as it was given it.
    pub main-balances :
        (world : ℕ) (d : Details R) (w w' : World)
        → BcastSucceeds w.env
        → main memcmp cube threads world d w ≡ ok tt w'
        → Accounts r w w' 0 0
    main-balances world d w w' e h = ((main-Spends world d).run w w' tt e h).0
