-- ===== src/Error/Laws.antt =====
-- What error reporting does to the resources and to the environment.
use underling.Common.{
  ℕ, ◌≡◌, ◌==◌, refl, inl, inr, Bool-cases, [], ◌∷◌, if◌then◌else◌, String, Option, none, arith,
}
use underling.Machine.{
  Env, World, ok, perform, when◌then◌else◌, ErrorHandler, default_handler, no_error_handler,
  custom_handler, print, str, user_stream_handler,
}
use underling.Machine.Count.{Resource, gains, losses}
use underling.Machine.Spends.{Spends, seq, pure_, halt_, gets_, aside, pass, spend, branch}
use underling.Error.Defs.{
  Status, stderr, stream_printf, default_error, report_to, error, error_val, mpichkr, mpichkn,
  reporting,
}

-- A message is printed, or given to the user's function.
module _ {E : Env → Type 0} (r : Resource) where
  printf-Spends : (label reason : String) → Spends E r 0 (stream_printf label reason) (λ _. 0)
  unfolding stream_printf gains losses perform when◌then◌else◌
  printf-Spends label reason = record {
    run = λ w w' v p h. elim (Bool-cases (w.stream_handler == 0)) [
      | inl e ↦
          (spend {E = E} {r = r} {x = 0}
              (print (if w.stream == 0 then stderr else w.stream) "underling: %s: %s\n"
                (str label ∷ str reason ∷ []))
              refl (λ s o. refl)).run
            (record w { stream = if w.stream == 0 then stderr else w.stream }) w' v p (rw e at h)
      | inr e ↦
          (spend {E = E} {r = r} {x = 0} (user_stream_handler w.stream_handler label reason) refl
              (λ s o. refl)).run
            (record w { stream = if w.stream == 0 then stderr else w.stream }) w' v p (rw e at h)
    ];
  }

  report_to-Spends :
      (h : ErrorHandler) (reason : String) (e : Status)
      → Spends E r 0 (report_to h reason e) (λ _. 0)
  unfolding report_to default_error gains losses
  report_to-Spends default_handler reason e = aside (printf-Spends _ reason) λ _.
      aside (spend _ refl (λ s o. refl)) λ _.
        aside (spend _ refl (λ s o. refl)) λ _.
          aside (spend _ refl (λ s o. refl)) λ _. aside (spend _ refl (λ s o. refl)) λ _. halt_ _
  report_to-Spends no_error_handler reason e = pure_ tt refl
  report_to-Spends (custom_handler k) reason e =
      pass _ refl (λ s o. refl) λ s. branch (λ _. pure_ tt refl) (λ _. halt_ _)

-- Reporting an error hands out and gives back nothing.
pub error-Spends :
    {E : Env → Type 0} (r : Resource) (reason : String) (e : Status)
    → Spends E r 0 (error reason e) (λ _. 0)
unfolding error
error-Spends r reason e = aside (gets_ _) λ h. report_to-Spends r h reason e

pub mpichkr-Spends :
    {E : Env → Type 0} (r : Resource) (status : ℕ) → Spends E r 0 (mpichkr status) (λ _. 0)
unfolding mpichkr gains losses
mpichkr-Spends r status =
    branch (λ _. pure_ tt refl) λ _. pass _ refl (λ s o. refl) λ s. error-Spends r _ _

pub error_val-Spends :
    {E : Env → Type 0} {A : Type 0} (r : Resource) (reason : String) (e : Status) (u : A)
    (b : A → ℕ)
    → Spends E r (b u) (error_val reason e u) b
unfolding error_val
error_val-Spends r reason e u b =
    seq (b u) (omega arith) (error-Spends r reason e) (λ v. pure_ u (omega arith))

pub mpichkn-Spends :
    {E : Env → Type 0} {A : Type 0} (r : Resource) (status : ℕ) (b : Option A → ℕ)
    → Spends E r (b none) (mpichkn status) b
unfolding mpichkn
mpichkn-Spends r status b =
    seq (b none) (omega arith) (mpichkr-Spends r status) (λ v. pure_ none (omega arith))

pub error-env :
    (reason : String) (e : Status) (w w' : World) → error reason e w ≡ ok tt w' → w'.env ≡ w.env
unfolding reporting
error-env reason e w w' h = ground arith

pub mpichkr-env : (status : ℕ) (w w' : World) → mpichkr status w ≡ ok tt w' → w'.env ≡ w.env
unfolding reporting
mpichkr-env status w w' h = ground arith
