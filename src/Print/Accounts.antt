-- ===== src/Print/Accounts.antt =====
-- Printing hands out and gives back nothing.
use underling.Common.{ℕ, refl, String, Option, none, some}
use underling.Machine.{Env, Arg, print}
use underling.Machine.Count.{Resource, gains, losses}
use underling.Machine.Spends.{Spends, branch, spend, pass, aside}
use underling.Transpose.Defs.{Transpose}
use underling.Print.Objects.{fprint_comm, fprint_transpose}
use underling.Machine.{perform}
use underling.Common.{List}

module _ {E : Env → Type 0} (r : Resource) where
  pub print-Spends :
      (out : ℕ) (s : String) (a : List Arg) → Spends E r 0 (perform (print out s a)) (λ _. 0)
  unfolding gains losses
  print-Spends out s a = spend _ refl (λ s o. refl)

  fprint_comm-Spends : (h n : String) (c out : ℕ) → Spends E r 0 (fprint_comm h n c out) (λ _. 0)
  unfolding fprint_comm gains losses
  fprint_comm-Spends h n c out =
      pass _ refl (λ s o. refl)
        λ k.
          branch (λ _. pass _ refl (λ s o. refl) λ f. print-Spends _ _ _) (λ _. print-Spends _ _ _)

  pub fprint_transpose-Spends :
      (t : Option Transpose) (out : ℕ) → Spends E r 0 (fprint_transpose t out) (λ _. 0)
  unfolding fprint_transpose
  fprint_transpose-Spends none out =
      aside (print-Spends _ _ _) λ _. aside (print-Spends _ _ _) λ _. print-Spends _ _ _
  fprint_transpose-Spends (some t) out = aside (print-Spends _ _ _) λ _.
      aside (fprint_comm-Spends _ _ _ _) λ _.
        aside (print-Spends _ _ _)
          λ _. aside (print-Spends _ _ _) λ _. aside (print-Spends _ _ _) λ _. print-Spends _ _ _
