-- ===== src/Problem/Print.antt =====
-- `underling_fprint_problem`.
use underling.Common.{ℕ, String, Option, none, some, [], ◌∷◌}
use underling.Machine.{M, ◌>>◌, perform, print, int}
use underling.Extents.Defs.{Extents}
use underling.Transpose.Defs.{Transpose}
use underling.Print.{fprint_extents, fprint_transpose}
use underling.Problem.Defs.{Problem}

abbrev fprint_long : ℕ → Extents → ℕ → M (Unit {0})
fprint_long i e out = do
  perform (print out "{long_n%d:" (int i ∷ []))
  fprint_extents (some e) out
  perform (print out "}" [])

abbrev fprint_part : String → Option Transpose → ℕ → M (Unit {0})
fprint_part name t out = do
  perform (print out name [])
  fprint_transpose t out
  perform (print out "}" [])

unfoldable pub fprint_problem : Option Problem → ℕ → M (Unit {0})
fprint_problem none out = do
  perform (print out "{underling_problem:" [])
  perform (print out "NULL" [])
  perform (print out "}" [])
fprint_problem (some p) out = do
  perform (print out "{underling_problem:" [])
  perform (print out "{howmany=%d,local_memory=%zu}" (int p.howmany ∷ int p.local_memory ∷ []))
  fprint_long 2 p.long_n2 out
  fprint_long 1 p.long_n1 out
  fprint_long 0 p.long_n0 out
  fprint_part "{backwardA:" p.backward_a out
  fprint_part "{backwardB:" p.backward_b out
  fprint_part "{forwardB:" p.forward_b out
  fprint_part "{forwardA:" p.forward_a out
  perform (print out "}" [])
