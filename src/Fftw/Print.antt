-- ===== src/Fftw/Print.antt =====
-- `underling_fftw_fprint_extents` and `underling_fftw_fprint_plan`.
use underling.Common.{ℕ, ◌+◌, Option, none, some, [], ◌∷◌}
use underling.Machine.{M, when◌then◌else◌, ◌>>◌, perform, print, int}
use underling.FftwExtents.Defs.{FftwExtents}
use underling.Plan.Print.{fprint_direction}
use underling.Fftw.Defs.{
  TransformType, unspecified, c2c_forward, c2c_backward, c2r_backward, r2c_forward, FftwPlan,
}

unfoldable pub fprint_extents : Option FftwExtents → ℕ → M (Unit {0})
fprint_extents none out = perform (print out "NULL" [])
fprint_extents (some e) out = do
  perform (
      print out "extents=[%d,%d)x[%d,%d)x[%d,%d)x[%d,%d)x[%d,%d)" (
        int e.start.i0
        ∷ int (e.start.i0 + e.size.i0)
        ∷ int e.start.i1
        ∷ int (e.start.i1 + e.size.i1)
        ∷ int e.start.i2
        ∷ int (e.start.i2 + e.size.i2)
        ∷ int e.start.i3
        ∷ int (e.start.i3 + e.size.i3)
        ∷ int e.start.i4
        ∷ int (e.start.i4 + e.size.i4)
        ∷ []))
  perform (
      print out ",strides={%d,%d,%d,%d,%d}" (
        int e.stride.i0
        ∷ int e.stride.i1
        ∷ int e.stride.i2
        ∷ int e.stride.i3
        ∷ int e.stride.i4
        ∷ []))

-- The number of a type.
abbrev pub ordinal : TransformType → ℕ
ordinal unspecified = 0
ordinal c2c_forward = 1
ordinal c2c_backward = 2
ordinal c2r_backward = 3
ordinal r2c_forward = 4

unfoldable pub fprint_plan : Option FftwPlan → ℕ → M (Unit {0})
fprint_plan none out = do
  perform (print out "{underling_fftw_plan:" [])
  perform (print out "NULL" [])
  perform (print out "}" [])
fprint_plan (some f) out = do
  perform (print out "{underling_fftw_plan:" [])
  perform (print out "long_ni=%d,type=%d" (int f.long_ni ∷ int (ordinal f.type) ∷ []))
  perform (print out ",{input=" [])
  fprint_extents (some f.input) out
  perform (print out "}" [])
  fprint_direction f.plan_preorder f.plan_preorder "{plan_preorder:" out
  fprint_direction f.plan_fftw f.plan_fftw "{plan_fftw:" out
  fprint_direction f.plan_postorder f.plan_postorder "{plan_postorder:" out
  perform (print out "{output=" [])
  fprint_extents (some f.output) out
  perform (print out "}," [])
  when f.in_place then perform (print out "in-place" []) else perform (print out "out-of-place" [])
  perform (
      print out ",{offset:ri=%d,ii=%d,ro=%d,io=%d}"
        (int f.offset.ri ∷ int f.offset.ii ∷ int f.offset.ro ∷ int f.offset.io ∷ []))
  perform (print out "}" [])
