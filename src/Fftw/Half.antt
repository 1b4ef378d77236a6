-- ===== src/Fftw/Half.antt =====
-- `underling_fftw_plan_create_c2r_backward_internal` and
-- `underling_fftw_plan_create_r2c_forward_internal`, in the order of their statements.
use underling.Common.{
  ℕ, ◌+◌, ◌*◌, ◌/◌, ◌==◌, ltb, ℤ, nonneg, true, bit_or, Option, some, [], ◌∷◌, ◌++◌, if◌then◌else◌,
}
use underling.Machine.{
  M, when◌then◌else◌, checked, pure, gets, assert, ◌>>=◌, ◌>>◌, invoke, IoDim, iodim, malloc,
  plan_guru_r2r, plan_guru_split_dft_c2r, plan_guru_split_dft_r2c,
}
use underling.Error.{einval, enomem, error_null}
use underling.FftwExtents.Defs.{get5, FftwExtents}
use underling.Fftw.Defs.{c2r_backward, r2c_forward, FftwPlan}
use underling.Fftw.Complex.{check_arguments, initial, fail, along, other_directions}

-- A direction after the transform in place: the long one has its padded real length.
unfoldable pub c2r_after : (input output : FftwExtents) → (long_ni io : ℕ) → IoDim
c2r_after input output long_ni io =
    if io == long_ni
    then iodim (2 * get5 input.size io) (get5 input.stride io / 2) (get5 output.stride io)
    else along input output io

unfoldable pub c2r_postorder : FftwPlan → (src dst flags : ℕ) → M (Option FftwPlan)
c2r_postorder f src dst flags =
    when f.in_place
    then (do
      let o = f.output.order
      assert (ltb o.i4 3)
      assert (ltb o.i3 3)
      assert (ltb o.i2 3)
      assert (f.input.size.i3 == f.output.size.i3)
      assert (src == dst)
      let n = f.output.size.i3
      let dim : ℕ → IoDim = c2r_after f.input f.output f.long_ni
      r ← invoke (
          plan_guru_r2r (dim o.i4 ∷ dim o.i3 ∷ dim o.i2 ∷ iodim n 1 1 ∷ iodim 1 n n ∷ []) src dst
            flags)
      let g = record f { plan_postorder = r.out 0 }
      when r.out 0 == 0
          then fail g "fftw_plan_guru_r2r returned NULL c2r_backward postorder plan"
          else pure (some g))
    else pure (some f)

unfoldable pub c2r_transform : FftwPlan → (src dst flags : ℕ) → M (Option FftwPlan)
c2r_transform f src dst flags = do
  let o = f.output.order
  let i = f.long_ni
  let n = f.input.size.i3
  let target = if f.in_place then f.input else f.output
  others ← other_directions (along f.input target) (λ oo. ltb oo 3) 2 i 0 (o.i4 ∷ o.i3 ∷ o.i2 ∷ [])
  let g = record f { offset = record f.offset { ri = 0; ii = if f.in_place then n else 1 } }
  r ← invoke (
      plan_guru_split_dft_c2r
        (iodim (get5 f.output.size i) (get5 f.input.stride i)
            (if f.in_place then n else get5 f.output.stride i)
          ∷ [])
        (others
          ++ iodim n (if f.in_place then 1 else f.input.stride.i3)
              (if f.in_place then 1 else f.output.stride.i3)
            ∷ [])
        (src + g.offset.ri) (src + g.offset.ii) dst flags)
  let h = record g { plan_fftw = r.out 0 }
  when r.out 0 == 0
      then fail h "fftw_plan_guru_split_dft_c2r returned NULL c2r_backward FFT plan"
      else c2r_postorder h src dst flags

-- In place, the parts of the complex fields are moved apart first.
unfoldable pub c2r_preorder : FftwPlan → (src dst flags : ℕ) → M (Option FftwPlan)
c2r_preorder f src dst flags =
    when f.in_place
    then (do
      let o = f.input.order
      assert (ltb o.i4 3)
      assert (ltb o.i3 3)
      assert (ltb o.i2 3)
      assert (src == dst)
      let n = f.input.size.i3
      let dim : ℕ → IoDim = along f.input f.input
      r ← invoke (
          plan_guru_r2r (dim o.i4 ∷ dim o.i3 ∷ dim o.i2 ∷ iodim n 2 1 ∷ iodim 2 1 n ∷ []) src dst
            flags)
      let g = record f { plan_preorder = r.out 0 }
      when r.out 0 == 0
          then fail g "fftw_plan_guru_r2r returned NULL c2r_backward preorder plan"
          else c2r_transform g src dst flags)
    else c2r_transform f src dst flags

-- `underling_fftw_plan_create_c2r_backward_internal`.
unfoldable pub c2r_internal :
    ℤ → (src dst rigor : ℕ) → (input output : FftwExtents) → M (Option FftwPlan)
c2r_internal long_ni src dst rigor input output = do
  k ← gets (λ w. w.env.fftw)
  checked (check_arguments k long_ni src dst rigor) (λ reason. error_null reason einval)
      do
        m ← invoke (malloc "struct underling_fftw_plan_s")
        when m.out 0 == 0
            then error_null "failed to allocate space for plan" enomem
            else c2r_preorder (initial m (nonneg long_ni) c2r_backward input output src dst) src dst
                (bit_or rigor k.destroy_input)

-- A direction after the transform in place, which doubles the long stride.
unfoldable pub r2c_after : (input output : FftwExtents) → (long_ni io : ℕ) → IoDim
r2c_after input output long_ni io =
    iodim (get5 output.size io)
      (if io == long_ni then get5 input.stride io * 2 else get5 input.stride io)
      (get5 output.stride io)

unfoldable pub r2c_postorder : FftwPlan → (src dst flags : ℕ) → M (Option FftwPlan)
r2c_postorder f src dst flags =
    when f.in_place
    then (do
      let o = f.input.order
      assert (src == dst)
      let n = f.output.size.i3
      let dim : ℕ → IoDim = r2c_after f.input f.output f.long_ni
      r ← invoke (
          plan_guru_r2r (dim o.i4 ∷ dim o.i3 ∷ dim o.i2 ∷ iodim n 1 2 ∷ iodim 2 n 1 ∷ []) src dst
            flags)
      let g = record f { plan_postorder = r.out 0 }
      when r.out 0 == 0
          then fail g "fftw_plan_guru_r2r returned NULL r2c_forward postorder plan"
          else pure (some g))
    else pure (some f)

unfoldable pub r2c_transform : FftwPlan → (src dst flags : ℕ) → M (Option FftwPlan)
r2c_transform f src dst flags = do
  let o = f.input.order
  let i = f.long_ni
  let target = if f.in_place then f.input else f.output
  others ←
      other_directions (along f.input target) (λ io. true) 3 i 0 (o.i4 ∷ o.i3 ∷ o.i2 ∷ o.i1 ∷ [])
  let g = record f {
    offset = record f.offset { ro = 0; io = if f.in_place then get5 f.input.stride i else 1 };
  }
  r ← invoke (
      plan_guru_split_dft_r2c
        (iodim (get5 f.input.size i) (get5 f.input.stride i)
            (if f.in_place then 2 * get5 f.input.stride i else get5 f.output.stride i)
          ∷ [])
        others src (dst + g.offset.ro) (dst + g.offset.io) flags)
  let h = record g { plan_fftw = r.out 0 }
  when r.out 0 == 0
      then fail h "fftw_plan_guru_split_dft_r2c returned NULL r2c_forward FFT plan"
      else r2c_postorder h src dst flags

-- `underling_fftw_plan_create_r2c_forward_internal`.
unfoldable pub r2c_internal :
    ℤ → (src dst rigor : ℕ) → (input output : FftwExtents) → M (Option FftwPlan)
r2c_internal long_ni src dst rigor input output = do
  k ← gets (λ w. w.env.fftw)
  checked (check_arguments k long_ni src dst rigor) (λ reason. error_null reason einval)
      do
        m ← invoke (malloc "struct underling_fftw_plan_s")
        when m.out 0 == 0
            then error_null "failed to allocate space for plan" enomem
            else r2c_transform (initial m (nonneg long_ni) r2c_forward input output src dst) src dst
                (bit_or rigor k.destroy_input)
