-- ===== src/Plan/Accounts.antt =====
-- What the operations on plans take and give back.
use underling.Common.{ℕ, zero, suc, ◌+◌, ◌≡◌, refl, ==_iff, String, Option, none, some, arith}
use underling.Machine.{Env, free, destroy_plan, perform, flush}
use underling.Machine.Count.{Resource, gains, losses, hit, hit_null, block, plan}
use underling.Machine.Spends.{
  Spends, seq, same, pure_, branch, checked_, spend, pass, aside, ask, gets_, allocate,
}
use underling.Error.{einval, enomem, efailed, error_null}
use underling.Error.Laws.{error_val-Spends, mpichkr-Spends}
use underling.Transpose.Defs.{Transpose}
use underling.Transpose.Accounts.{fftw_plan-Spends}
use underling.Print.Accounts.{print-Spends, fprint_transpose-Spends}
use underling.Problem.Defs.{Problem}
use underling.Plan.Defs.{Plan, release_plan, destroy}
use underling.Plan.Create.{
  dump_rounds, dump_transposes, debug_dump, plan_direction, plan_forward, plan_backward, initial,
  given, create,
}

-- What a plan owns: its block and its four FFTW plans.
abbrev pub owned : Resource → Plan → ℕ
owned r p =
    hit r block p.block
    + hit r plan p.plan_backward_a
    + hit r plan p.plan_backward_b
    + hit r plan p.plan_forward_a
    + hit r plan p.plan_forward_b

abbrev pub owned? : Resource → Option Plan → ℕ
owned? r none = 0
owned? r (some p) = owned r p

module _ {E : Env → Type 0} (r : Resource) where
  pub release_plan-Spends : (p : ℕ) → Spends E r (hit r plan p) (release_plan p) (λ _. 0)
  unfolding release_plan gains losses
  release_plan-Spends p =
      branch (λ e. pure_ tt (rw ((==_iff p 0).0 e) (hit_null r plan)))
        (λ _. spend (destroy_plan p) refl (λ s o. refl))

  pub destroy-Spends : (p : Option Plan) → Spends E r (owned? r p) (destroy p) (λ _. 0)
  unfolding destroy gains losses
  destroy-Spends none = pure_ tt refl
  destroy-Spends (some p) =
      let b = hit r block p.block in
      let bB = hit r plan p.plan_backward_b in
      let fA = hit r plan p.plan_forward_a in
      let fB = hit r plan p.plan_forward_b in
      seq (b + bB + fA + fB) (omega arith) (release_plan-Spends p.plan_backward_a) λ _.
        seq (b + fA + fB) (omega arith) (release_plan-Spends p.plan_backward_b) λ _.
          seq (b + fB) (omega arith) (release_plan-Spends p.plan_forward_a) λ _.
            seq b (omega arith) (release_plan-Spends p.plan_forward_b)
              λ _. spend (free p.block) (omega arith) (λ s o. refl)

  flush-Spends : (out : ℕ) → Spends E r 0 (perform (flush out)) (λ _. 0)
  unfolding gains losses
  flush-Spends out = spend _ refl (λ s o. refl)

  dump_rounds-Spends :
      (left i comm rank out : ℕ) (s : String) (t : Option Transpose)
      → Spends E r 0 (dump_rounds left i comm rank out s t) (λ _. 0)
  unfolding dump_rounds gains losses
  dump_rounds-Spends zero i comm rank out s t = pure_ _ refl
  dump_rounds-Spends (suc left) i comm rank out s t =
      ask _ refl (λ s o. refl) (λ k. aside (mpichkr-Spends r _) λ _. pure_ _ refl)
        λ _.
          aside
            (branch
              (λ _. aside (print-Spends r _ _ _) λ _. aside (print-Spends r _ _ _) λ _.
                aside (fprint_transpose-Spends r t _)
                  λ _. aside (print-Spends r _ _ _) λ _. flush-Spends out)
              (λ _. pure_ tt refl))
            λ _. dump_rounds-Spends left (i + 1) comm rank out s t

  pub debug_dump-Spends :
      (s : String) (t : Option Transpose) → Spends E r 0 (debug_dump s t) (λ _. 0)
  unfolding debug_dump dump_transposes gains losses
  debug_dump-Spends s t = aside (gets_ _) λ c.
      branch (λ _. pure_ tt refl)
        λ _.
          ask _ refl (λ s o. refl) (λ k. mpichkr-Spends r _)
            λ n.
              ask _ refl (λ s o. refl) (λ k. mpichkr-Spends r _)
                λ m.
                  ask _ refl (λ s o. refl) (λ k. mpichkr-Spends r _)
                    λ b. aside (flush-Spends _) λ _.
                      aside (dump_rounds-Spends _ _ _ _ _ s t) λ done.
                        branch (λ _. pure_ tt refl)
                          λ _.
                            aside (flush-Spends _)
                              λ _. pass _ refl (λ s o. refl) λ e. mpichkr-Spends r _

  plan_direction-Spends :
      (p : Plan) (flags direction : ℕ) (t : Option Transpose) (a b f : ℕ) (reason : String)
      (go : ℕ → _)
      → ((q : ℕ) → Spends E r (owned r p + hit r plan q) (go q) (owned? r))
      → Spends E r (owned r p) (plan_direction p flags direction t a b f reason go) (owned? r)
  unfolding plan_direction error_null
  plan_direction-Spends p flags direction t a b f reason go q =
      branch (λ _. same (omega (arith, hit_null r plan)) (q 0))
        λ _. seq (owned r p) (omega arith) (fftw_plan-Spends r t a b f) λ k.
          branch
            (λ e.
              seq 0 (rw ((==_iff k 0).0 e) (omega (arith, hit_null r plan)))
                (destroy-Spends (some p)) λ _. error_val-Spends r reason efailed none _)
            (λ _. same (omega arith) (q k))

  plan_backward-Spends :
      (b : Problem) (p : Plan) (flags x y f : ℕ)
      → p.plan_backward_a ≡ 0
      → p.plan_backward_b ≡ 0
      → p.plan_forward_a ≡ 0
      → p.plan_forward_b ≡ 0
      → Spends E r (owned r p) (plan_backward b p flags x y f) (owned? r)
  unfolding plan_backward plan_forward
  plan_backward-Spends b p flags x y f eA eB e' e = aside (debug_dump-Spends _ _) λ _.
      plan_direction-Spends _ _ _ _ _ _ _ _ _ λ qA. same (rw eA (omega (arith, hit_null r plan))) (
        aside (debug_dump-Spends _ _) λ _. plan_direction-Spends _ _ _ _ _ _ _ _ _ λ qB.
          same (rw eB (omega (arith, hit_null r plan))) (
            aside (debug_dump-Spends _ _) λ _. plan_direction-Spends _ _ _ _ _ _ _ _ _ λ fB.
              same (rw e (omega (arith, hit_null r plan))) (
                aside (debug_dump-Spends _ _) λ _.
                  plan_direction-Spends _ _ _ _ _ _ _ _ _
                    λ fA. pure_ _ (rw e' (omega (arith, hit_null r plan))))))

  given-Spends :
      (b : Option Problem) (go : Problem → _)
      → ((p : Problem) → Spends E r 0 (go p) (owned? r))
      → Spends E r 0 (given b go) (owned? r)
  unfolding given
  given-Spends none go q = pure_ none refl
  given-Spends (some p) go q = q p

  pub create-Spends :
      (b : Option Problem) (src dst flags rigor : ℕ)
      → Spends E r 0 (create b src dst flags rigor) (owned? r)
  unfolding create error_null initial
  create-Spends b src dst flags rigor = aside (gets_ _) λ k.
      checked_ (λ reason. error_val-Spends r reason einval none _)
        λ _. given-Spends b _ λ p. allocate _ (error_val-Spends r _ enomem none _) λ m.
          same (omega (arith, hit_null r plan))
            (plan_backward-Spends p _ _ _ _ _ refl refl refl refl)
