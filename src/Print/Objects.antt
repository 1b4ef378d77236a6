-- ===== src/Print/Objects.antt =====
-- `underling_fprint_extents`, `underling_fprint_transpose` and `underling_fprint_grid` of
-- underling/underling.c.
use underling.Common.{ℕ, ◌+◌, ◌==◌, not, ◌||◌, String, Option, none, some, [], ◌∷◌}
use underling.Machine.{
  M, when◌then◌else◌, ◌>>=◌, ◌>>◌, invoke, perform, comm_get_name, comm_f, print, int, str,
}
use underling.Extents.Defs.{Extents}
use underling.Grid.Defs.{Grid}
use underling.Transpose.Defs.{Transpose}

unfoldable pub fprint_extents : Option Extents → ℕ → M (Unit {0})
fprint_extents none out = perform (print out "NULL" [])
fprint_extents (some e) out = do
  perform (
      print out "extents=[%d,%d)x[%d,%d)x[%d,%d)x[%d,%d)" (
        int e.start.i0
        ∷ int (e.start.i0 + e.size.i0)
        ∷ int e.start.i1
        ∷ int (e.start.i1 + e.size.i1)
        ∷ int e.start.i2
        ∷ int (e.start.i2 + e.size.i2)
        ∷ int e.start.i3
        ∷ int (e.start.i3 + e.size.i3)
        ∷ []))
  perform (
      print out ",strides={%d,%d,%d,%d}"
        (int e.stride.i0 ∷ int e.stride.i1 ∷ int e.stride.i2 ∷ int e.stride.i3 ∷ []))

-- A communicator by its name, or by its Fortran handle if it has none.
unfoldable pub fprint_comm : (by_handle by_name : String) → (comm out : ℕ) → M (Unit {0})
fprint_comm by_handle by_name comm out = do
  n ← invoke (comm_get_name comm)
  when not (n.status == 0) || n.out 0 == 0
      then (do f ← invoke (comm_f comm); perform (print out by_handle (int (f.out 0) ∷ [])))
      else perform (print out by_name (str "the name" ∷ []))

unfoldable pub fprint_transpose : Option Transpose → ℕ → M (Unit {0})
fprint_transpose none out = do
  perform (print out "{underling_transpose:" [])
  perform (print out "NULL" [])
  perform (print out "}" [])
fprint_transpose (some t) out = do
  perform (print out "{underling_transpose:" [])
  fprint_comm "comm=%x" "comm=%s" t.comm out
  perform (
      print out ",{d=%td,%td},howmany=%td,{block=%td,%td}"
        (int t.d0 ∷ int t.d1 ∷ int t.howmany ∷ int t.block0 ∷ int t.block1 ∷ []))
  perform (print out ",flags=%u,local_size=%td" (int t.flags ∷ int t.local_size ∷ []))
  perform (
      print out ",{local=%td,%td},{local_start=%td,%td}"
        (int t.local0 ∷ int t.local1 ∷ int t.local_start0 ∷ int t.local_start1 ∷ []))
  perform (print out "}" [])

unfoldable pub fprint_grid : Option Grid → ℕ → M (Unit {0})
fprint_grid none out = do
  perform (print out "{underling_grid:" [])
  perform (print out "NULL" [])
  perform (print out "}" [])
fprint_grid (some g) out = do
  perform (print out "{underling_grid:" [])
  perform (
      print out "{n0=%d,n1=%d,n2=%d},{pA=%d,pB=%d}"
        (int g.n0 ∷ int g.n1 ∷ int g.n2 ∷ int g.p_a ∷ int g.p_b ∷ []))
  fprint_comm ",{g_comm=%x" ",{g_comm=%s" g.g_comm out
  fprint_comm ",pA_comm=%x" ",pA_comm=%s" g.p_a_comm out
  fprint_comm ",pB_comm=%x}" ",pB_comm=%s}" g.p_b_comm out
  perform (print out "}" [])
