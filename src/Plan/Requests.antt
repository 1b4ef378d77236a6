-- ===== src/Plan/Requests.antt =====
-- What FFTW was asked for the plans of a plan that is created.
use underling.Common.{
  ℕ, ◌≡◌, refl, ◌≤◌, bit_or, right-le-bit_or, String, Option, none, some, [], if◌then◌else◌, arith,
}
use underling.Machine.{Env, Trace, Call, World, ok, plan_many_transpose, plan_guru_r2r}
use underling.Machine.Yields.{returns, bind, anything}
use underling.Machine.Ensures.{
  Ensures, any_resource, kept, gives, then_, asks, reads, forks, screens,
}
use underling.Error.{efailed, error_val}
use underling.Error.Ensures.{refuses}
use underling.Error.Laws.{error_val-Spends}
use underling.Transpose.Defs.{Transpose, is_trivial, fftw_plan}
use underling.Problem.Defs.{Problem}
use underling.Plan.Defs.{Plan}
use underling.Plan.Accounts.{destroy-Spends, debug_dump-Spends}
use underling.Plan.Create.{plan_direction, plan_forward, plan_backward, debug_dump, given, create}

-- What a transpose asks FFTW for: a plan with its arguments for the two buffers, or one that does nothing if
-- there is nothing to transpose.
abbrev pub request : Transpose → (src dst fftw_flags : ℕ) → Call
request t src dst fftw_flags =
    if is_trivial t
    then plan_guru_r2r [] 0 0 0
    else plan_many_transpose t.d0 t.d1 t.howmany t.block0 t.block1 src dst t.comm
        (bit_or t.flags fftw_flags)

-- The handle is FFTW's answer to the request of the transpose, after some calls.
abbrev pub IsAnswer : Env → (src dst fftw_flags : ℕ) → Option Transpose → ℕ → Type 0
IsAnswer e src dst fftw_flags none h = h ≡ 0
IsAnswer e src dst fftw_flags (some t) h =
    (tr : Trace) × (h ≡ e.out tr (request t src dst fftw_flags) 0)

-- No direction that was planned is without a plan.
pub record Answered (e : Env) (src dst fftw_flags : ℕ) (b : Problem) (p : Plan) : Type 0 where
  pub backward_a : IsAnswer e src dst fftw_flags b.backward_a p.plan_backward_a
  pub backward_b : IsAnswer e src dst fftw_flags b.backward_b p.plan_backward_b
  pub forward_b : IsAnswer e src dst fftw_flags b.forward_b p.plan_forward_b
  pub forward_a : IsAnswer e src dst fftw_flags b.forward_a p.plan_forward_a

abbrev Made : Env → (src dst fftw_flags : ℕ) → Problem → Option Plan → Type 0
Made e src dst fftw_flags b none = Unit {0}
Made e src dst fftw_flags b (some p) = Answered e src dst fftw_flags b p

module _ {e : Env} (src dst f : ℕ) where
  fftw_plan-IsAnswer :
      (t : Option Transpose) → Ensures e (fftw_plan t src dst f) (IsAnswer e src dst f t)
  unfolding fftw_plan error_val
  fftw_plan-IsAnswer none =
      kept (error_val-Spends any_resource "transpose == NULL" _ 0 (λ _. 0))
        (bind _ λ _. returns 0 refl)
  fftw_plan-IsAnswer (some t) =
      forks
        (λ h.
          asks _ (λ s. (tr : Trace) × (s.out 0 ≡ e.out tr (plan_guru_r2r [] 0 0 0) 0))
            (λ t. (t, refl)) λ s a. gives _ (rw h a))
        (λ h.
          asks _
            (λ s.
              (tr : Trace) × (s.out 0
                ≡ e.out tr
                    (plan_many_transpose t.d0 t.d1 t.howmany t.block0 t.block1 src dst t.comm
                      (bit_or t.flags f))
                    0))
            (λ t. (t, refl)) λ s a. gives _ (rw h a))

  plan_direction-Answered :
      (b : Problem) (p : Plan) (flags direction : ℕ) (t : Option Transpose) (reason : String)
      (go : ℕ → _)
      → 1 ≤ direction
      → ((q : ℕ) → IsAnswer e src dst f t q → Ensures e (go q) (Made e src dst f b))
      → Ensures e (plan_direction p flags direction t src dst f reason go) (Made e src dst f b)
  unfolding plan_direction
  plan_direction-Answered b p flags direction t reason go l h =
      forks (λ z. absurd (ground (arith, right-le-bit_or direction flags direction)))
        λ _. then_ (fftw_plan-IsAnswer t) λ q a.
          forks
            (λ _.
              then_ (kept (destroy-Spends any_resource (some p)) anything)
                λ _ _. refuses tt reason efailed)
            λ _. h q a

  dumps : (s : String) (t : Option Transpose) → Ensures e (debug_dump s t) (λ _. Unit {0})
  dumps s t = kept (debug_dump-Spends any_resource s t) anything

  plan_backward-Answered :
      (b : Problem) (p : Plan) (flags : ℕ)
      → Ensures e (plan_backward b p flags src dst f) (Made e src dst f b)
  unfolding plan_backward plan_forward
  plan_backward-Answered b p flags = then_ (dumps _ _) λ _ _.
      plan_direction-Answered b _ flags _ _ _ _ (omega arith) λ qA hA. then_ (dumps _ _) λ _ _.
        plan_direction-Answered b _ flags _ _ _ _ (omega arith) λ qB hB. then_ (dumps _ _) λ _ _.
          plan_direction-Answered b _ flags _ _ _ _ (omega arith) λ rB kB. then_ (dumps _ _) λ _ _.
            plan_direction-Answered b _ flags _ _ _ _ (omega arith) λ rA kA.
              gives _ (record { backward_a = hA; backward_b = hB; forward_b = kB; forward_a = kA })

-- Each FFTW plan of a plan that is created is FFTW's answer to the request of its own
-- transpose of the problem, from the first buffer to the second, with the rigor that was given
-- and with the leave to destroy the input.
pub create-requests :
    (b : Problem) (src dst flags rigor : ℕ) (w w' : World) (p : Plan)
    → create (some b) src dst flags rigor w ≡ ok (some p) w'
    → Answered w.env src dst (bit_or rigor w.env.fftw.destroy_input) b p
unfolding create given
create-requests b src dst flags rigor w w' p h = (run_create.run w w' (some p) refl h).0
  where
    run_create :
        Ensures w.env
          (create (some b) src dst flags rigor)
          (Made w.env src dst (bit_or rigor w.env.fftw.destroy_input) b)
    run_create = reads _ (
        screens _ (λ reason. refuses tt reason _)
          (asks _ (λ _. Unit {0}) (λ _. tt)
            λ m _. forks (λ _. refuses tt _ _) λ _. plan_backward-Answered src dst _ b _ _))
