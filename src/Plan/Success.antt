-- ===== src/Plan/Success.antt =====
-- A plan is created where every call does its work.
use underling.Common.{ℕ, zero, suc, ◌+◌, ◌≡◌, ◌≢◌, refl, true, String, Option, none, some, arith}
use underling.Machine.{World, Env, ok}
use underling.Machine.Works.{Works}
use underling.Machine.Succeeds.{
  Succeeds, gives, looks, performs, then_, asks, reads, skips, either, passes, enters,
}
use underling.Error.{mpichkr}
use underling.Transpose.Defs.{Transpose, fftw_plan}
use underling.Transpose.Success.{IsSome}
use underling.Print.Objects.{fprint_comm, fprint_transpose}
use underling.Problem.Defs.{Problem}
use underling.Problem.Success.{IsWhole}
use underling.Plan.Defs.{Plan}
use underling.Plan.Create.{
  check_arguments, dump_rounds, dump_transposes, debug_dump, plan_direction, plan_forward,
  plan_backward, given, create,
}

module _ {e : Env} (ok : Works e) where
  mpichkr-Succeeds : (status : ℕ) → status ≡ 0 → Succeeds e (mpichkr status) (λ _. Unit {0})
  unfolding mpichkr
  mpichkr-Succeeds status h = rw h (enters _ refl (gives tt tt))

  fprint_transpose-Succeeds :
      (t : Option Transpose) (out : ℕ) → Succeeds e (fprint_transpose t out) (λ _. Unit {0})
  unfolding fprint_transpose fprint_comm
  fprint_transpose-Succeeds none out =
      then_ (performs _) λ _ _. then_ (performs _) λ _ _. performs _
  fprint_transpose-Succeeds (some t) out = then_ (performs _) λ _ _.
      then_
        (asks _ (λ _. Unit {0}) (λ _. tt)
          λ n _.
            either _ (λ _. asks _ (λ _. Unit {0}) (λ _. tt) λ f _. performs _) (λ _. performs _))
        λ _ _.
          then_ (performs _) λ _ _. then_ (performs _) λ _ _. then_ (performs _) λ _ _. performs _

  dump_rounds-Succeeds :
      (left i comm rank out : ℕ) (s : String) (t : Option Transpose)
      → Succeeds e (dump_rounds left i comm rank out s t) (λ b. b ≡ true)
  unfolding dump_rounds
  dump_rounds-Succeeds zero i comm rank out s t = gives true refl
  dump_rounds-Succeeds (suc left) i comm rank out s t =
      asks _ (λ s. s.status ≡ 0) (λ t. ok.status t _)
        λ b z. skips _ (ground (arith, z)) (
          then_
            (either _
              (λ _. then_ (performs _) λ _ _. then_ (performs _) λ _ _.
                then_ (fprint_transpose-Succeeds t out) λ _ _. then_ (performs _) λ _ _. performs _)
              (λ _. gives tt tt))
            λ _ _. dump_rounds-Succeeds left (i + 1) comm rank out s t)

  debug_dump-Succeeds :
      (s : String) (t : Option Transpose) → Succeeds e (debug_dump s t) (λ _. Unit {0})
  unfolding debug_dump dump_transposes
  debug_dump-Succeeds s t = then_ (looks _) λ c _.
      either _ (λ _. gives tt tt)
        (λ _.
          asks _ (λ s. s.status ≡ 0) (λ t. ok.status t _)
            λ n zn. skips _ (ground (arith, zn)) (
              asks _ (λ s. s.status ≡ 0) (λ t. ok.status t _)
                λ r zr. skips _ (ground (arith, zr)) (
                  asks _ (λ s. s.status ≡ 0) (λ t. ok.status t _)
                    λ b zb. skips _ (ground (arith, zb)) (
                      then_ (performs _) λ _ _. then_ (dump_rounds-Succeeds _ _ _ _ _ s t) λ done d.
                        skips _ (ground (arith, d)) (
                          then_ (performs _) λ _ _.
                            asks _ (λ s. s.status ≡ 0) (λ t. ok.status t _)
                              λ x zx. mpichkr-Succeeds _ zx)))))

  fftw_plan-Succeeds :
      (t : Option Transpose) (src dst flags : ℕ)
      → IsSome (λ _. Unit {0}) t
      → Succeeds e (fftw_plan t src dst flags) (λ q. q ≢ 0)
  unfolding fftw_plan
  fftw_plan-Succeeds none src dst flags h = absurd h
  fftw_plan-Succeeds (some t) src dst flags h =
      either _ (λ _. asks _ (λ s. s.out 0 ≢ 0) (λ tr. ok.plan_guru_r2r tr _ _ _ _) λ s z. gives _ z)
        (λ _.
          asks _ (λ s. s.out 0 ≢ 0) (λ tr. ok.plan_many_transpose tr _ _ _ _ _ _ _ _ _)
            λ s z. gives _ z)

  plan_direction-Succeeds :
      (p : Plan) (flags direction : ℕ) (t : Option Transpose) (a b f : ℕ) (reason : String)
      (go : ℕ → _)
      → IsSome (λ _. Unit {0}) t
      → ((q : ℕ) → Succeeds e (go q) (IsSome (λ _. Unit {0})))
      → Succeeds e (plan_direction p flags direction t a b f reason go) (IsSome (λ _. Unit {0}))
  unfolding plan_direction
  plan_direction-Succeeds p flags direction t a b f reason go h q =
      either _ (λ _. q 0)
        λ _. then_ (fftw_plan-Succeeds t a b f h) λ r z. skips _ (ground (arith, z)) (q r)

  plan_backward-Succeeds :
      (b : Problem) (p : Plan) (flags x y f : ℕ)
      → IsWhole b
      → Succeeds e (plan_backward b p flags x y f) (IsSome (λ _. Unit {0}))
  unfolding plan_backward plan_forward
  plan_backward-Succeeds b p flags x y f h = then_ (debug_dump-Succeeds _ _) λ _ _.
      plan_direction-Succeeds _ flags _ _ _ _ _ _ _ h.backward_a λ qA.
        then_ (debug_dump-Succeeds _ _) λ _ _.
          plan_direction-Succeeds _ flags _ _ _ _ _ _ _ h.backward_b λ qB.
            then_ (debug_dump-Succeeds _ _) λ _ _.
              plan_direction-Succeeds _ flags _ _ _ _ _ _ _ h.forward_b λ rB.
                then_ (debug_dump-Succeeds _ _)
                  λ _ _. plan_direction-Succeeds _ flags _ _ _ _ _ _ _ h.forward_a λ rA. gives _ tt

-- Where every call does its work, the problem has its four transposes and the arguments pass their
-- check, a plan is created, which executes on its buffers in each of the four directions.
pub create-succeeds_plan :
    (b : Problem) (src dst flags rigor : ℕ) (w : World)
    → Works w.env
    → IsWhole b
    → check_arguments w.env.fftw (some b) src dst flags rigor ≡ none
    → (p : Plan) × (w' : World) × (create (some b) src dst flags rigor w ≡ ok (some p) w')
unfolding create given
create-succeeds_plan b src dst flags rigor w works whole h = some_plan made
  where
    made :
        (v : Option Plan) × (w' : World) × (create (some b) src dst flags rigor w ≡ ok v w')
        × IsSome (λ _. Unit {0}) v
        × (w'.env ≡ w.env)
    made =
        (reads _ (
            passes _ h (
              asks _ (λ s. s.out 0 ≢ 0) (λ t. works.malloc t _)
                λ m z.
                  skips _ (ground (arith, z))
                    (plan_backward-Succeeds works b _ _ _ _ _ whole)))).run
          w refl

    some_plan :
        (v : Option Plan) × (w' : World) × (create (some b) src dst flags rigor w ≡ ok v w')
          × IsSome (λ _. Unit {0}) v
          × (w'.env ≡ w.env)
        → (p : Plan) × (w' : World) × (create (some b) src dst flags rigor w ≡ ok (some p) w')
    some_plan (none, w', i, x, k) = absurd x
    some_plan (some p, w', i, x, k) = (p, w', i)
