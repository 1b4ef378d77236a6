-- ===== src/Plan/Returns.antt =====
-- The creation of a plan comes back.
use underling.Common.{ℕ, zero, suc, ◌+◌, ◌≡◌, String, Option, none, some}
use underling.Machine.{Env, World, ok}
use underling.Machine.Comes.{
  Returning, Comes, gives, looks, calls, performs, then_, either, screens,
}
use underling.Error.{error_null}
use underling.Error.Returns.{error_val-Comes, mpichkr-Comes}
use underling.Transpose.Defs.{Transpose, fftw_plan}
use underling.Print.Objects.{fprint_comm, fprint_transpose}
use underling.Problem.Defs.{Problem}
use underling.Plan.Defs.{Plan, release_plan, destroy}
use underling.Plan.Create.{
  dump_rounds, dump_transposes, debug_dump, plan_direction, plan_forward, plan_backward, given,
  create,
}

module _ {E : Env → Type 0} where
  release_plan-Comes : (p : ℕ) → Comes E (release_plan p)
  unfolding release_plan
  release_plan-Comes p = either _ (gives tt) (performs _)

  destroy-Comes : (p : Option Plan) → Comes E (destroy p)
  unfolding destroy
  destroy-Comes none = gives tt
  destroy-Comes (some p) = then_ (release_plan-Comes _) λ _.
      then_ (release_plan-Comes _)
        λ _. then_ (release_plan-Comes _) λ _. then_ (release_plan-Comes _) λ _. performs _

  fprint_transpose-Comes : (t : Option Transpose) (out : ℕ) → Comes E (fprint_transpose t out)
  unfolding fprint_transpose fprint_comm
  fprint_transpose-Comes none out = then_ (performs _) λ _. then_ (performs _) λ _. performs _
  fprint_transpose-Comes (some t) out = then_ (performs _) λ _.
      then_ (then_ (calls _) λ n. either _ (then_ (calls _) λ f. performs _) (performs _))
        λ _. then_ (performs _) λ _. then_ (performs _) λ _. then_ (performs _) λ _. performs _

  dump_rounds-Comes :
      (left i comm rank out : ℕ) (s : String) (t : Option Transpose)
      → Comes E (dump_rounds left i comm rank out s t)
  unfolding dump_rounds
  dump_rounds-Comes zero i comm rank out s t = gives _
  dump_rounds-Comes (suc left) i comm rank out s t = then_ (calls _) λ b.
      either _ (then_ (mpichkr-Comes _) λ _. gives _) (
        then_
          (either _
            (then_ (performs _) λ _.
              then_ (performs _)
                λ _. then_ (fprint_transpose-Comes t out) λ _. then_ (performs _) λ _. performs _)
            (gives tt))
          λ _. dump_rounds-Comes left (i + 1) comm rank out s t)

  debug_dump-Comes : (s : String) (t : Option Transpose) → Comes E (debug_dump s t)
  unfolding debug_dump dump_transposes
  debug_dump-Comes s t = then_ (looks _) λ c. either _ (gives tt) (
      then_ (calls _) λ n. either _ (mpichkr-Comes _) (
        then_ (calls _) λ r. either _ (mpichkr-Comes _) (
          then_ (calls _) λ b. either _ (mpichkr-Comes _) (
            then_ (performs _) λ _. then_ (dump_rounds-Comes _ _ _ _ _ s t) λ done.
              either _ (gives tt) (then_ (performs _) λ _. then_ (calls _) λ e. mpichkr-Comes _)))))

  fftw_plan-Comes : (t : Option Transpose) (src dst flags : ℕ) → Comes E (fftw_plan t src dst flags)
  unfolding fftw_plan
  fftw_plan-Comes none src dst flags = error_val-Comes _ _ _
  fftw_plan-Comes (some t) src dst flags =
      either _ (then_ (calls _) λ r. gives _) (then_ (calls _) λ r. gives _)

  plan_direction-Comes :
      (p : Plan) (flags direction : ℕ) (t : Option Transpose) (a b f : ℕ) (reason : String)
      (go : ℕ → _)
      → ((q : ℕ) → Comes E (go q))
      → Comes E (plan_direction p flags direction t a b f reason go)
  unfolding plan_direction error_null
  plan_direction-Comes p flags direction t a b f reason go q = either _ (q 0) (
      then_ (fftw_plan-Comes t a b f)
        λ k. either _ (then_ (destroy-Comes _) λ _. error_val-Comes _ _ none) (q k))

  create-Comes :
      (b : Option Problem) (src dst flags rigor : ℕ) → Comes E (create b src dst flags rigor)
  unfolding create given plan_backward plan_forward error_null
  create-Comes none src dst flags rigor =
      then_ (looks _) λ k. screens _ (λ reason. error_val-Comes reason _ none) (gives none)
  create-Comes (some b) src dst flags rigor = then_ (looks _) λ k.
      screens _ (λ reason. error_val-Comes reason _ none)
        (then_ (calls _) λ m. either _ (error_val-Comes _ _ none) (
          then_ (debug_dump-Comes _ _) λ _. plan_direction-Comes _ _ _ _ _ _ _ _ _ λ q.
            then_ (debug_dump-Comes _ _) λ _. plan_direction-Comes _ _ _ _ _ _ _ _ _ λ q'.
              then_ (debug_dump-Comes _ _) λ _. plan_direction-Comes _ _ _ _ _ _ _ _ _ λ r.
                then_ (debug_dump-Comes _ _)
                  λ _. plan_direction-Comes _ _ _ _ _ _ _ _ _ λ r'. gives _))

-- Under an error handler that returns, the creation of a plan returns whatever the arguments are
-- and the calls answer, and so does the destruction of what it returned.
pub destroy-create_plan_returns :
    (b : Option Problem) (src dst flags rigor : ℕ) (w : World)
    → Returning w
    → (p : Option Plan) × (w1 : World) × (w2 : World) × (create b src dst flags rigor w ≡ ok p w1)
      × (destroy p w1 ≡ ok tt w2)
destroy-create_plan_returns b src dst flags rigor w n =
    let (p, w1, h, n1, e1) = (create-Comes {E = λ _. Unit} b src dst flags rigor).run w n tt in
    let (u, w2, h2, _, _) = (destroy-Comes {E = λ _. Unit} p).run w1 n1 e1 in (p, w1, w2, h, h2)
