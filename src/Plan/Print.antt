-- ===== src/Plan/Print.antt =====
-- `underling_fprint_plan`.
use underling.Common.{ℕ, ◌==◌, String, Option, none, some, []}
use underling.Machine.{M, when◌then◌else◌, pure, ◌>>◌, perform, print, print_plan}
use underling.Plan.Defs.{Plan}

-- One FFTW plan, where the pointer that is tested is not NULL.
unfoldable pub fprint_direction : (tested plan : ℕ) → String → (out : ℕ) → M (Unit {0})
fprint_direction tested plan name out =
    when tested == 0
    then pure tt
    else do perform (print out name []); perform (print_plan plan out); perform (print out "}" [])

-- The tests of the two forward plans are exchanged, and no brace is closed at the end.
unfoldable pub fprint_plan : Option Plan → ℕ → M (Unit {0})
fprint_plan none out = do perform (print out "{underling_plan:" []); perform (print out "NULL" [])
fprint_plan (some p) out = do
  perform (print out "{underling_plan:" [])
  fprint_direction p.plan_backward_a p.plan_backward_a "{plan_backwardA:" out
  fprint_direction p.plan_backward_b p.plan_backward_b "{plan_backwardB:" out
  fprint_direction p.plan_forward_a p.plan_forward_b "{plan_forwardB:" out
  fprint_direction p.plan_forward_b p.plan_forward_a "{plan_forwardA:" out
