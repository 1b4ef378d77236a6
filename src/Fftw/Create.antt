-- ===== src/Fftw/Create.antt =====
-- The plan creations of underling/underling_fftw.h and the inverse.
use underling.Common.{
  ℕ, ◌==◌, not, ◌&&◌, ◌||◌, ℤ, pos, negsuc, Bool, true, bit_and, Option, none, some, String,
  if◌then◌else◌,
}
use underling.Machine.{M, when◌then◌else◌, pure, halt, null_access, ◌>>=◌, ◌>>◌}
use underling.Error.{einval, esanity, error, error_null}
use underling.Problem.Defs.{Problem}
use underling.Problem.Query.{local_extents}
use underling.FftwExtents.Defs.{Five, FftwExtents, cmp, is, adjust, pack, for_complex, for_real}
use underling.Fftw.Defs.{
  TransformType, unspecified, c2c_forward, c2c_backward, c2r_backward, r2c_forward, FftwPlan,
  destroy,
}
use underling.Fftw.Complex.{Sign, forward, backward, c2c_internal}
use underling.Fftw.Half.{c2r_internal, r2c_internal}

-- The flags of underling/underling_fftw.h.
abbrev pub packed_long_n2 : ℕ
packed_long_n2 = 64

abbrev pub packed_long_n0 : ℕ
packed_long_n0 = 128

abbrev pub packed_none : ℕ
packed_none = 256

-- Whether the long side is asked to be packed. No flag stands for the flag for none.
unfoldable pub is_packed : ℤ → ℕ → Bool
is_packed long_ni packed_flags =
    let f = if packed_flags == 0 then packed_none else packed_flags in
    (is long_ni 2 && not (bit_and f packed_long_n2 == 0))
    || (is long_ni 0 && not (bit_and f packed_long_n0 == 0))

-- The adjusted layout is packed, which an in-place transform refuses.
unfoldable pub with_packing :
    ℤ
    → (packed_flags src dst : ℕ) → FftwExtents
    → (FftwExtents → M (Option FftwPlan))
    → M (Option FftwPlan)
with_packing long_ni packed_flags src dst e go =
    when is_packed long_ni packed_flags
    then (when src == dst
        then error_null "invalid packed_flags for in-place transform" einval
        else go (pack e))
    else go e

-- `underling_fftw_plan_create_c2c_forward` and `underling_fftw_plan_create_c2c_backward`.
unfoldable pub create_c2c :
    Sign → Option Problem → ℤ → (src dst rigor packed_flags : ℕ) → M (Option FftwPlan)
create_c2c sign problem long_ni src dst rigor packed_flags = do
  e ← local_extents problem long_ni
  input ← for_complex e long_ni
  a ← adjust e long_ni
  output ← for_complex a.0 long_ni
  with_packing long_ni packed_flags src dst output
      λ out. c2c_internal long_ni src dst sign rigor input out

unfoldable pub create_c2c_forward :
    Option Problem → ℤ → (src dst rigor packed_flags : ℕ) → M (Option FftwPlan)
create_c2c_forward = create_c2c forward

unfoldable pub create_c2c_backward :
    Option Problem → ℤ → (src dst rigor packed_flags : ℕ) → M (Option FftwPlan)
create_c2c_backward = create_c2c backward

-- An in-place transform between complex and real needs the long direction second on the complex
-- side.
unfoldable pub not_in_place :
    ℤ → (src dst : ℕ) → FftwExtents → String → M (Option FftwPlan) → M (Option FftwPlan)
not_in_place long_ni src dst e reason go =
    when src == dst && not (is long_ni e.order.i2) then error_null reason esanity else go

-- `underling_fftw_plan_create_c2r_backward`.
unfoldable pub create_c2r_backward :
    Option Problem → ℤ → (src dst rigor packed_flags : ℕ) → M (Option FftwPlan)
create_c2r_backward problem long_ni src dst rigor packed_flags = do
  e ← local_extents problem long_ni
  input ← for_complex e long_ni
  a ← adjust e long_ni
  output ← for_real a.0 long_ni
  with_packing long_ni packed_flags src dst output λ out.
      not_in_place long_ni src dst input
        "Creation of in-place c2r_backward plans for non-stride one directions is currently unimplemented"
        (c2r_internal long_ni src dst rigor input out)

-- `underling_fftw_plan_create_r2c_forward`.
unfoldable pub create_r2c_forward :
    Option Problem → ℤ → (src dst rigor packed_flags : ℕ) → M (Option FftwPlan)
create_r2c_forward problem long_ni src dst rigor packed_flags = do
  e ← local_extents problem long_ni
  output ← for_complex e long_ni
  a ← adjust e long_ni
  input ← for_real a.0 long_ni
  with_packing long_ni packed_flags src dst input λ from.
      not_in_place long_ni src dst output
        "Creation of in-place r2c_forward plans for non-stride one directions is currently unimplemented."
        (r2c_internal long_ni src dst rigor from output)

-- `if (x)` on an `int`.
abbrev pub differs : ℤ → Bool
differs (pos n) = not (n == 0)
differs (negsuc n) = true

-- A failed check of the inverse: it is reported, the inverse is destroyed, and NULL is returned.
unfoldable pub discard : FftwPlan → String → M (Option FftwPlan)
discard b reason = do error reason esanity; destroy (some b); pure none

-- The check that the inverse exchanges the layouts. It reads through the pointer that the creation
-- returned without a test for NULL.
unfoldable pub check_inverse : (Five → Five → ℤ) → FftwPlan → Option FftwPlan → M (Option FftwPlan)
check_inverse memcmp f none = halt null_access
check_inverse memcmp f (some b) =
    when differs (cmp memcmp f.input b.output)
    then discard b "plan_to_invert->input != retval->output"
    else when differs (cmp memcmp f.output b.input)
    then discard b "plan_to_invert->output != retval->input"
    else pure (some b)

-- The switch on the type of the plan: the internal creation with the layouts exchanged.
unfoldable pub inverted :
    (Five → Five → ℤ) → FftwPlan → TransformType → (src dst rigor : ℕ) → M (Option FftwPlan)
inverted memcmp f unspecified src dst rigor = error_null "Unrecognized plan_to_invert->type" esanity
inverted memcmp f c2c_forward src dst rigor =
    c2c_internal (pos f.long_ni) src dst backward rigor f.output f.input >>= check_inverse memcmp f
inverted memcmp f c2c_backward src dst rigor =
    c2c_internal (pos f.long_ni) src dst forward rigor f.output f.input >>= check_inverse memcmp f
inverted memcmp f c2r_backward src dst rigor =
    r2c_internal (pos f.long_ni) src dst rigor f.output f.input >>= check_inverse memcmp f
inverted memcmp f r2c_forward src dst rigor =
    c2r_internal (pos f.long_ni) src dst rigor f.output f.input >>= check_inverse memcmp f

-- `underling_fftw_plan_create_inverse`, over the C library's `memcmp` on five ints.
unfoldable pub create_inverse :
    (Five → Five → ℤ) → Option FftwPlan → (src dst rigor : ℕ) → M (Option FftwPlan)
create_inverse memcmp none src dst rigor = error_null "plan_to_invert == NULL" einval
create_inverse memcmp (some f) src dst rigor = inverted memcmp f f.type src dst rigor
