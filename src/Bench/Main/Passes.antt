-- ===== src/Bench/Main/Passes.antt =====
-- The passes of the main loop without transforms: every transpose of every field is executed.
use underling.Common.{
  ℕ, ◌+◌, ◌≤◌, ◌<◌, ◌^◌, ◌≡◌, ◌∙◌, not, nonneg, List, Option, none, some, length, arith,
}
use underling.Machine.{World, ok, ◌>>=◌}
use underling.Problem.Defs.{Problem}
use underling.Plan.Defs.{
  Plan, execute_long_n2_to_long_n1, execute_long_n1_to_long_n0, execute_long_n0_to_long_n1,
  execute_long_n1_to_long_n2,
}
use underling.Plan.Create.{create}
use underling.Plan.Execute.{create-IsComplete}
use underling.Bench.Defs.{Details, movement_of, truth}
use underling.Bench.Movement.{total}
use underling.Bench.Pass.{moved, numbered, all_at}
use underling.Bench.Loops.{moved_at, counted, filled}
use underling.Bench.Main.{go_forward, go_backward}
use underling.Bench.Buffers.{Transforms}
use underling.Bench.Main.Sweeps.{
  entry, AreFields, swept, only_transposes, rising_executes, falling_executes,
}

abbrev pub no_transforms : Transforms
no_transforms = record { plan0 = none; plan1 = none; plan2 = none }

risen :
    (n m m' c one k : ℕ) (o : ℕ → ℕ)
    → k < n
    → o k ≡ c
    → m ≡ one
    → m' ≡ 0
    → c + one < 2 ^ 31
    → moved m' n (moved m n o) k ≡ c + one
risen n m m' c one k o l e h h' s = moved_at m' n k (moved m n o) ∙ ground (arith, moved_at m n k o)

module _ {R : Type 0} (d : Details R) (f : List ℕ) (p : Plan) where
  abbrev n : ℕ
  n = nonneg d.nfields

  abbrev first : ℕ → ℕ
  first = numbered n (λ j. 0)

  abbrev last : ℕ → ℕ
  last = all_at (total (movement_of d)) n (λ j. 0)

  -- What the two transposes of a pass do, one call of FFTW for each field.
  abbrev pub swept_forward : World → World
  swept_forward w =
      let m = movement_of d in
      let o = moved m.m2 n (moved m.m1 n first) in
      swept f o m.m3 n p.plan_backward_b n (swept f first m.m1 n p.plan_backward_a n w)

  abbrev pub swept_backward : World → World
  swept_backward w =
      let m = movement_of d in
      let o = moved m.m7 n (moved m.m6 n last) in
      swept f o m.m8 n p.plan_forward_a n (swept f last m.m6 n p.plan_forward_b n w)

  module _ (e0 : d.fft_n0 ≡ b'i') (e1 : d.fft_n1 ≡ b'i') (e2 : d.fft_n2 ≡ b'i') (some_field : 1 ≤ n)
      (fields : AreFields f) (enough : n + truth (not d.mpi_inplace) ≤ length f)
      (small : length f < 2 ^ 31) where
    first_own : (k : ℕ) → k < n → first k ≡ k
    first_own k l = counted n k (λ j. 0) ∙ ground (arith, l)

    last_first : (k : ℕ) → k < n → last k ≡ 0
    last_first k l =
        let (_, _, _, t, _, _, _) = only_transposes d e0 e1 e2 in
        filled (total (movement_of d)) n k (λ j. 0) ∙ ground (arith, l, t)

    -- Without transforms, with a field at least, and where there are at least as many buffers as
    -- fields and out of place one more, fewer than 2^31, all of them different and not NULL, a
    -- plan that was created for the first of them and, out of place, the one behind it accepts
    -- the buffers of both passes: each transpose is one call of FFTW for each turn of its loop,
    -- on the buffers of that turn, and nothing else, whatever the calls answer.
    pub create-sweeps :
        (b : Option Problem) (flags rigor : ℕ) (w w' u : World)
        → create b (entry f 0) (entry f (truth (not d.mpi_inplace))) flags rigor w ≡ ok (some p) w'
        → (go_forward d (some p) no_transforms f u ≡ ok tt (swept_forward u))
          × (go_backward d (some p) no_transforms f u ≡ ok tt (swept_backward u))
    unfolding go_forward go_backward ◌>>=◌ execute_long_n2_to_long_n1 execute_long_n1_to_long_n0
        execute_long_n0_to_long_n1 execute_long_n1_to_long_n2
    create-sweeps b flags rigor w w' u h =
        let c = create-IsComplete b _ _ flags rigor w w' p h in
        let (m1, m2, m3, _, m6, m7, m8) = only_transposes d e0 e1 e2 in
        let up = rising_executes d.mpi_inplace p f n fields small (omega arith) c in
        let down = falling_executes d.mpi_inplace p f n fields small (omega arith) c in
        let m = movement_of d in
        let f1 =
          up "plan->plan_backwardA == NULL" (λ p. p.plan_backward_a) c.backward_a first (λ k. k)
            (λ k l. omega arith) m.m1 u first_own m1 in
        let f2 =
          down "plan->plan_backwardB == NULL" (λ p. p.plan_backward_b) c.backward_b
            (moved m.m2 n (moved m.m1 n first)) (λ k. k) (λ k l. omega arith) m.m3
            (swept f first m.m1 n p.plan_backward_a n u)
            (λ k l. risen n m.m1 m.m2 k _ k first l (first_own k l) m1 m2 (omega arith)) m3 in
        let b1 =
          up "plan->plan_forwardB == NULL" (λ p. p.plan_forward_b) c.forward_b last (λ k. 0)
            (λ k l. omega arith) m.m6 u last_first m6 in
        let b2 =
          down "plan->plan_forwardA == NULL" (λ p. p.plan_forward_a) c.forward_a
            (moved m.m7 n (moved m.m6 n last)) (λ k. 0) (λ k l. omega arith) m.m8
            (swept f last m.m6 n p.plan_forward_b n u)
            (λ k l. risen n m.m6 m.m7 0 _ k last l (last_first k l) m6 m7 (omega arith)) m8 in
        (rw (f1, f2), rw (b1, b2))
