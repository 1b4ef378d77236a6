-- ===== src/Bench/Main/Steps.antt =====
-- What the parts of the benchmark take and give back.
use underling.Common.{
  ℕ, zero, suc, ◌+◌, refl, ==_iff, ℤ, pos, List, [], ◌∷◌, Option, none, some, arith,
}
use underling.Machine.{Env, M}
use underling.Machine.Count.{Resource, gains, losses, hit, hit_null, field}
use underling.Machine.Spends.{
  Spends, seq, pure_, halt_, branch, invoke_, spend, assert_, same, aside,
}
use underling.Error.{Status}
use underling.FftwExtents.Defs.{Five}
use underling.Grid.Defs.{Grid}
use underling.Problem.Defs.{Problem}
use underling.Plan.Defs.{
  Plan, execute_long_n2_to_long_n1, execute_long_n1_to_long_n0, execute_long_n0_to_long_n1,
  execute_long_n1_to_long_n2,
}
use underling.Fftw.Defs.{FftwPlan}
use underling.Fftw.Accounts as ffts
use underling.Fftw.Release.{
  local_extents-Spends, create_c2c-Spends, create_r2c_forward-Spends, create_inverse-Spends,
}
use underling.Fftw.Complex.{forward}
use underling.Fftw.Create.{create_c2c_forward}
use underling.Problem.Query.{local_memory_minimum, local_memory_maximum, global_memory}
use underling.Bench.Defs.{Details}
use underling.Bench.Main.{
  make_forward, make_backward, go_forward, go_backward, main_loop, check_round_trip,
}
use underling.Bench.Buffers.{
  calloc_field, calloc_fields, free_fields, field_at, sweep, Transforms, if_planned, check_fields,
  destroy_transforms, display_memory,
}
use underling.Bench.Main.Calls.{
  execute-Spends, execute_plan-Spends, local_memory_optimum-Spends, local_memory_allreduce-Spends,
  global_memory_optimum-Spends,
}

-- What is owned in the fields, and in three plans.
abbrev pub owned_fields : Resource → List ℕ → ℕ
owned_fields r [] = 0
owned_fields r (p ∷ f) = hit r field p + owned_fields r f

abbrev pub owned_transforms : Resource → Transforms → ℕ
owned_transforms r t = ffts.owned? r t.plan0 + ffts.owned? r t.plan1 + ffts.owned? r t.plan2

module _ {E : Env → Type 0} (r : Resource) where
  calloc_field-Spends : (bytes : ℕ) → Spends E r 0 (calloc_field bytes) (λ p. hit r field p)
  unfolding calloc_field gains losses
  calloc_field-Spends bytes = seq 0 (omega arith) (invoke_ _ refl) λ s.
      branch
        (λ e.
          same {y = 0} (rw ((==_iff (s.out 0) 0).0 e) (omega (arith, hit_null r field)))
            (aside (spend _ refl (λ s o. refl)) λ _. halt_ _))
        (λ _. pure_ _ (omega arith))

  pub calloc_fields-Spends :
      (count bytes : ℕ) → Spends E r 0 (calloc_fields count bytes) (owned_fields r)
  unfolding calloc_fields
  calloc_fields-Spends zero bytes = pure_ _ refl
  calloc_fields-Spends (suc n) bytes = seq 0 (omega arith) (calloc_field-Spends bytes) λ p.
      aside (assert_ _) λ _.
        seq (hit r field p) (omega arith) (calloc_fields-Spends n bytes)
          λ rest. pure_ _ (omega arith)

  pub free_fields-Spends : (f : List ℕ) → Spends E r (owned_fields r f) (free_fields f) (λ _. 0)
  unfolding free_fields gains losses
  free_fields-Spends [] = pure_ _ refl
  free_fields-Spends (p ∷ f) =
      seq (owned_fields r f) (omega arith) (spend _ refl (λ s o. refl))
        λ _. same (omega arith) (free_fields-Spends f)

  pub field_at-Spends : (f : List ℕ) (i : ℕ) → Spends E r 0 (field_at f i) (λ _. 0)
  unfolding field_at
  field_at-Spends [] i = halt_ _
  field_at-Spends (p ∷ f) zero = pure_ _ refl
  field_at-Spends (p ∷ f) (suc i) = field_at-Spends f i

  sweep-Spends :
      (op : ℕ → ℕ → M Status) (f : List ℕ) (o : ℕ → ℕ) (m nfields n : ℕ)
      → ((src dst : ℕ) → Spends E r 0 (op src dst) (λ _. 0))
      → Spends E r 0 (sweep op f o m nfields n) (λ _. 0)
  unfolding sweep
  sweep-Spends op f o m nfields zero p = pure_ _ refl
  sweep-Spends op f o m nfields (suc n) p = aside (sweep-Spends op f o m nfields n p) λ _.
      aside (field_at-Spends f _)
        λ src. aside (field_at-Spends f _) λ dst. aside (p src dst) λ _. pure_ _ refl

  if_planned-Spends :
      (f : Option FftwPlan) (go : (ℕ → ℕ → M Status) → M (Unit {0}))
      → ((op : ℕ → ℕ → M Status)
          → ((src dst : ℕ) → Spends E r 0 (op src dst) (λ _. 0))
          → Spends E r 0 (go op) (λ _. 0))
      → Spends E r 0 (if_planned f go) (λ _. 0)
  if_planned-Spends none go p = pure_ _ refl
  if_planned-Spends (some f) go p = p _ (execute-Spends r (some f))

  pub destroy_transforms-Spends :
      (t : Transforms) → Spends E r (owned_transforms r t) (destroy_transforms t) (λ _. 0)
  unfolding destroy_transforms
  destroy_transforms-Spends t =
      let p1 = ffts.owned? r t.plan1 in
      let p2 = ffts.owned? r t.plan2 in
      seq (p1 + p2) (omega arith) (ffts.destroy-Spends r t.plan0) λ _.
        seq p2 (omega arith) (ffts.destroy-Spends r t.plan1)
          λ _. same (omega arith) (ffts.destroy-Spends r t.plan2)

  pub display_memory-Spends :
      (g : Option Grid) (p : Option Problem) → Spends E r 0 (display_memory g p) (λ _. 0)
  unfolding display_memory local_memory_minimum local_memory_maximum global_memory
  display_memory-Spends g p = aside (local_memory_optimum-Spends r p) λ _.
      aside (local_memory_allreduce-Spends r _ g p) λ _.
        aside (local_memory_allreduce-Spends r _ g p) λ _.
          aside (local_memory_optimum-Spends r p) λ _.
            aside (local_memory_allreduce-Spends r _ g p) λ _.
              aside (global_memory_optimum-Spends r g p)
                λ _. aside (local_memory_allreduce-Spends r _ g p) λ _. pure_ _ refl

  check_fields-Spends :
      (p : Option Problem) (memory n : ℕ) → Spends E r 0 (check_fields p memory n) (λ _. 0)
  unfolding check_fields
  check_fields-Spends p memory zero = pure_ _ refl
  check_fields-Spends p memory (suc n) =
      aside (local_extents-Spends r p (pos 2))
        λ e. aside (assert_ _) λ _. check_fields-Spends p memory n

  module _ {R : Type 0} (d : Details R) where
    pub make_forward-Spends :
        (p : Option Problem) (i : ℤ) (letter : ℕ) (f : List ℕ) (rigor : ℕ)
        → Spends E r 0 (make_forward d p i letter f rigor) (ffts.owned? r)
    unfolding make_forward create_c2c_forward
    make_forward-Spends p i letter f rigor =
        branch
          (λ _. aside (field_at-Spends f _) λ src.
            aside (field_at-Spends f _) λ dst. create_c2c-Spends r forward p i src dst rigor _)
          λ _.
            branch
              (λ _. aside (field_at-Spends f _) λ src.
                aside (field_at-Spends f _) λ dst. create_r2c_forward-Spends r p i src dst rigor _)
              λ _. pure_ _ refl

    pub make_backward-Spends :
        (memcmp : Five → Five → ℤ) (p : Option FftwPlan) (f : List ℕ)
        → Spends E r 0 (make_backward d memcmp p f) (ffts.owned? r)
    unfolding make_backward
    make_backward-Spends memcmp p f =
        branch
          (λ _.
            aside (field_at-Spends f _)
              λ src. aside (field_at-Spends f _) λ dst. create_inverse-Spends r memcmp p src dst _)
          λ _. pure_ _ refl

    go_forward-Spends :
        (p : Option Plan) (t : Transforms) (f : List ℕ) → Spends E r 0 (go_forward d p t f) (λ _. 0)
    unfolding go_forward execute_long_n2_to_long_n1 execute_long_n1_to_long_n0
    go_forward-Spends p t f =
        aside (if_planned-Spends t.plan2 _ λ op q. sweep-Spends op f _ _ _ _ q) λ _.
          aside (sweep-Spends _ f _ _ _ _ (execute_plan-Spends r _ _ p)) λ _.
            aside (if_planned-Spends t.plan1 _ λ op q. sweep-Spends op f _ _ _ _ q) λ _.
              aside (sweep-Spends _ f _ _ _ _ (execute_plan-Spends r _ _ p))
                λ _. if_planned-Spends t.plan0 _ λ op q. sweep-Spends op f _ _ _ _ q

    go_backward-Spends :
        (p : Option Plan) (t : Transforms) (f : List ℕ)
        → Spends E r 0 (go_backward d p t f) (λ _. 0)
    unfolding go_backward execute_long_n0_to_long_n1 execute_long_n1_to_long_n2
    go_backward-Spends p t f =
        aside (if_planned-Spends t.plan0 _ λ op q. sweep-Spends op f _ _ _ _ q) λ _.
          aside (sweep-Spends _ f _ _ _ _ (execute_plan-Spends r _ _ p)) λ _.
            aside (if_planned-Spends t.plan1 _ λ op q. sweep-Spends op f _ _ _ _ q) λ _.
              aside (sweep-Spends _ f _ _ _ _ (execute_plan-Spends r _ _ p))
                λ _. if_planned-Spends t.plan2 _ λ op q. sweep-Spends op f _ _ _ _ q

    pub main_loop-Spends :
        (n : ℕ) (p : Option Plan) (t u : Transforms) (f : List ℕ)
        → Spends E r 0 (main_loop d n p t u f) (λ _. 0)
    unfolding main_loop
    main_loop-Spends zero p t u f = pure_ _ refl
    main_loop-Spends (suc n) p t u f =
        aside (branch (λ _. go_forward-Spends p t f) λ _. pure_ _ refl) λ _.
          aside (branch (λ _. go_backward-Spends p u f) λ _. pure_ _ refl)
            λ _. main_loop-Spends n p t u f

    pub check_round_trip-Spends :
        (p : Option Problem) (memory : ℕ) → Spends E r 0 (check_round_trip d p memory) (λ _. 0)
    unfolding check_round_trip gains losses
    check_round_trip-Spends p memory =
        branch (λ _. aside (check_fields-Spends p memory _) λ _. spend _ refl (λ s o. refl))
          λ _. pure_ _ refl
