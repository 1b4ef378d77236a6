-- ===== src/Plan/Execute.antt =====
-- What a plan that is created can do.
use underling.Common.{
  ℕ, ◌≤◌, ◌≡◌, refl, ◌≢◌, ◌↔◌, ◌==◌, right-le-bit_or, String, Option, none, some, arith,
}
use underling.Machine.{FftwConstants, World, ok, mpi_execute_r2r}
use underling.Machine.Yields.{Yields, returns, bind, cases, passes, anything}
use underling.Machine.At.{after_call, weaken}
use underling.Error.{success, error_null, error_val, reporting}
use underling.Transpose.Defs.{Transpose}
use underling.Problem.Defs.{Problem}
use underling.Plan.Defs.{
  Plan, check_buffers, execute, execute_long_n2_to_long_n1, execute_long_n1_to_long_n0,
  execute_long_n0_to_long_n1, execute_long_n1_to_long_n2,
}
use underling.Plan.Create.{
  plan_direction, plan_forward, plan_backward, initial, given, create, check_arguments,
}

-- A plan for all four directions, made for the buffers.
pub record IsComplete (src dst : ℕ) (p : Plan) : Type 0 where
  pub in_place : p.in_place ≡ (src == dst)
  pub backward_a : p.plan_backward_a ≢ 0
  pub backward_b : p.plan_backward_b ≢ 0
  pub forward_b : p.plan_forward_b ≢ 0
  pub forward_a : p.plan_forward_a ≢ 0

module _ (src dst : ℕ) where
  abbrev Complete : Option Plan → Type 0
  Complete none = Unit
  Complete (some p) = IsComplete src dst p

  -- The test `flags | direction` passes whatever the flags are.
  plan_direction-Complete :
      (p : Plan) (flags direction : ℕ) (t : Option Transpose) (a b f : ℕ) (reason : String)
      (go : ℕ → _)
      → 1 ≤ direction
      → ((q : ℕ) → q ≢ 0 → Yields (go q) Complete)
      → Yields (plan_direction p flags direction t a b f reason go) Complete
  unfolding plan_direction error_null error_val
  plan_direction-Complete p flags direction t a b f reason go h q =
      cases (λ e. absurd (ground (arith, right-le-bit_or direction flags direction)))
        λ _.
          bind _ λ r. cases (λ _. bind _ λ _. bind _ λ _. returns none tt) λ e. q r (ground arith)

  plan_backward-Complete :
      (b : Problem) (p : Plan) (flags x y f : ℕ)
      → p.in_place ≡ (src == dst)
      → Yields (plan_backward b p flags x y f) Complete
  unfolding plan_backward plan_forward
  plan_backward-Complete b p flags x y f e = bind _ λ _.
      plan_direction-Complete _ flags _ _ _ _ _ _ _ (omega arith) λ qA hA. bind _ λ _.
        plan_direction-Complete _ flags _ _ _ _ _ _ _ (omega arith) λ qB hB. bind _ λ _.
          plan_direction-Complete _ flags _ _ _ _ _ _ _ (omega arith) λ rB kB. bind _ λ _.
            plan_direction-Complete _ flags _ _ _ _ _ _ _ (omega arith) λ rA kA. returns _ (record {
              in_place = e;
              backward_a = hA;
              backward_b = hB;
              forward_b = kB;
              forward_a = kA;
            })

create-Complete :
    (b : Option Problem) (src dst flags rigor : ℕ)
    → Yields (create b src dst flags rigor) (Complete src dst)
unfolding create given error_null error_val initial
create-Complete none src dst flags rigor =
    bind _ λ k. passes (λ _. bind _ λ _. returns none tt) (λ _. returns none tt)
create-Complete (some b) src dst flags rigor = bind _ λ k.
    passes (λ _. bind _ λ _. returns none tt)
      λ _. bind _ λ m.
        cases (λ _. bind _ λ _. returns none tt)
          λ _. plan_backward-Complete src dst b _ _ _ _ _ refl

-- A plan that is created has an FFTW plan for every direction, whichever flags were given.
pub create-IsComplete :
    (b : Option Problem) (src dst flags rigor : ℕ) (w w' : World) (p : Plan)
    → create b src dst flags rigor w ≡ ok (some p) w'
    → IsComplete src dst p
create-IsComplete b src dst flags rigor w w' p =
    (create-Complete b src dst flags rigor).run w w' (some p)

check_arguments-ne-zero :
    (k : FftwConstants) (b : Option Problem) (src dst flags rigor : ℕ)
    → check_arguments k b src dst flags rigor ≡ none
    → (src ≢ 0) × (dst ≢ 0)
unfolding check_arguments
check_arguments-ne-zero k none src dst flags rigor h = absurd (cc)
check_arguments-ne-zero k (some b) src dst flags rigor h = ground arith

abbrev Buffers : ℕ → ℕ → Option Plan → Type 0
Buffers src dst none = Unit
Buffers src dst (some p) = (src ≢ 0) × (dst ≢ 0)

plans_with : (src dst : ℕ) → (src ≢ 0) × (dst ≢ 0) → (o : Option Plan) → Buffers src dst o
plans_with src dst h none = tt
plans_with src dst h (some p) = h

create-Buffers :
    (b : Option Problem) (src dst flags rigor : ℕ)
    → Yields (create b src dst flags rigor) (Buffers src dst)
unfolding create error_null error_val
create-Buffers b src dst flags rigor = bind _ λ k.
    passes (λ _. bind _ λ _. returns none tt)
      λ e.
        weaken anything
          λ o _. plans_with src dst (check_arguments-ne-zero k b src dst flags rigor e) o

-- An execution succeeds exactly if the plan has the direction and the buffers are as they were
-- when it was made: not NULL, and the same one if and only if the plan is in place. It then makes
-- the one call of FFTW, and nothing else.
pub execute-success_iff :
    (reason : String) (select : Plan → ℕ) (p : Plan) (src dst : ℕ) (w w' : World)
    → (execute reason select (some p) src dst w ≡ ok success w') ↔ (
        (select p ≢ 0)
        × (src ≢ 0)
        × (dst ≢ 0)
        × (p.in_place ≡ (src == dst))
        × (w' ≡ after_call (mpi_execute_r2r (select p) src dst) w))
unfolding execute check_buffers reporting
execute-success_iff reason select p src dst w w' = (λ h. ground arith, λ h. ground arith)

-- A plan that is created executes on its buffers in each of the four directions, whichever flags
-- were given to its creation.
pub create-executes :
    (b : Option Problem) (src dst flags rigor : ℕ) (w w' u : World) (p : Plan)
    → create b src dst flags rigor w ≡ ok (some p) w'
    → (execute_long_n2_to_long_n1 (some p) src dst u
        ≡ ok success (after_call (mpi_execute_r2r p.plan_backward_a src dst) u))
      × (execute_long_n1_to_long_n0 (some p) src dst u
          ≡ ok success (after_call (mpi_execute_r2r p.plan_backward_b src dst) u))
      × (execute_long_n0_to_long_n1 (some p) src dst u
          ≡ ok success (after_call (mpi_execute_r2r p.plan_forward_b src dst) u))
      × (execute_long_n1_to_long_n2 (some p) src dst u
          ≡ ok success (after_call (mpi_execute_r2r p.plan_forward_a src dst) u))
unfolding execute_long_n2_to_long_n1 execute_long_n1_to_long_n0 execute_long_n0_to_long_n1
    execute_long_n1_to_long_n2
create-executes b src dst flags rigor w w' u p h =
    let c = create-IsComplete b src dst flags rigor w w' p h in
    let n = (create-Buffers b src dst flags rigor).run w w' (some p) h in
    (
      (execute-success_iff _ _ p src dst u _).1 (c.backward_a, n.0, n.1, c.in_place, refl),
      (execute-success_iff _ _ p src dst u _).1 (c.backward_b, n.0, n.1, c.in_place, refl),
      (execute-success_iff _ _ p src dst u _).1 (c.forward_b, n.0, n.1, c.in_place, refl),
      (execute-success_iff _ _ p src dst u _).1 (c.forward_a, n.0, n.1, c.in_place, refl),
    )
