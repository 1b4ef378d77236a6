-- ===== src/Fftw/Complex.antt =====
-- `underling_fftw_plan_create_c2c_internal`, in the order of its statements, and what the three
-- internal creations share.
use underling.Common.{
  ℕ, ◌+◌, ◌==◌, ltb, not, ◌&&◌, ◌||◌, ℤ, below, nonneg, Bool, bit_and, bit_or, String, Option, none,
  some, List, [], ◌∷◌, ◌++◌, if◌then◌else◌,
}
use underling.Machine.{
  M, when◌then◌else◌, checked, pure, gets, assert, ◌>>=◌, ◌>>◌, invoke, Reply, FftwConstants, IoDim,
  iodim, malloc, plan_guru_r2r, plan_guru_split_dft,
}
use underling.Error.{einval, enomem, esanity, error_null, error_val}
use underling.FftwExtents.Defs.{get5, FftwExtents, is}
use underling.Plan.Create.{non_rigor_mask}
use underling.Fftw.Defs.{TransformType, c2c_forward, c2c_backward, Offset, FftwPlan, destroy}

-- The checks that the three functions share. In `underling_fftw_plan_create_c2c_internal` a check
-- of the sign, which the type `Sign` makes void, comes before the last one.
unfoldable pub check_arguments : FftwConstants → ℤ → (src dst rigor : ℕ) → Option String
check_arguments k long_ni src dst rigor =
    if below long_ni 0 || not (below long_ni 3)
    then some "long_ni < 0 or long_ni > 2"
    else if src == 0
    then some "in == NULL"
    else if dst == 0
    then some "out == NULL"
    else if not (bit_and rigor (non_rigor_mask k) == 0)
    then some "FFTW non-rigor bits disallowed"
    else none

-- The plan in a fresh block. What the block holds where nothing is written is an answer of the
-- allocation: the four offsets are its outputs 1 to 4.
unfoldable pub initial :
    Reply → ℕ → TransformType → (input output : FftwExtents) → (src dst : ℕ) → FftwPlan
initial m long_ni type input output src dst = record {
  block = m.out 0;
  long_ni = long_ni;
  type = type;
  input = input;
  plan_preorder = 0;
  plan_fftw = 0;
  plan_postorder = 0;
  output = output;
  in_place = src == dst;
  offset = record { ri = m.out 1; ii = m.out 2; ro = m.out 3; io = m.out 4 };
}

-- The end of a creation that fails with a plan made in part.
unfoldable pub fail : FftwPlan → String → M (Option FftwPlan)
fail f reason = destroy (some f) >> error_null reason esanity

-- `FFTW_FORWARD` and `FFTW_BACKWARD`, the only signs that are passed.
pub data Sign : Type 0 where
  forward backward : Sign

abbrev pub type_of : Sign → TransformType
type_of forward = c2c_forward
type_of backward = c2c_backward

-- A loop over one direction, with its strides in the two layouts.
abbrev pub along : (from to : FftwExtents) → ℕ → IoDim
along from to i = iodim (get5 from.size i) (get5 from.stride i) (get5 to.stride i)

-- `underling_fftw_plan_reorder_complex`.
unfoldable pub reorder_complex : (src dst : ℕ) → (input output : FftwExtents) → (flags : ℕ) → M ℕ
reorder_complex src dst input output flags = do
  let o = input.order
  r ← invoke (
      plan_guru_r2r
        (along input output o.i4
          ∷ along input output o.i3
          ∷ along input output o.i2
          ∷ along input output o.i1
          ∷ along input output o.i0
          ∷ [])
        src dst flags)
  when r.out 0 == 0
      then error_val "fftw_plan_guru_r2r returned NULL reorder_complex plan" esanity 0
      else pure (r.out 0)

-- The loop over the directions that are not transformed: each has to pass the test, and there are
-- `limit` of them. `j` counts the ones before.
unfoldable pub other_directions :
    (dim : ℕ → IoDim) → (valid : ℕ → Bool) → (limit long_ni j : ℕ) → List ℕ → M (List IoDim)
other_directions dim valid limit long_ni j [] = assert (j == limit) >> pure []
other_directions dim valid limit long_ni j (io ∷ r) =
    when io == long_ni then other_directions dim valid limit long_ni j r else do
      assert (valid io)
      assert (ltb j limit)
      rest ← other_directions dim valid limit long_ni (j + 1) r
      pure (dim io ∷ rest)

-- The offsets: a backward transform is a forward one with the parts exchanged.
unfoldable pub offsets : Sign → (ii io : ℕ) → Offset
offsets forward ii io = record { ri = 0; ii = ii; ro = 0; io = io }
offsets backward ii io = record { ri = ii; ii = 0; ro = io; io = 0 }

-- The plan of the transform itself, from one layout to the other.
unfoldable pub c2c_transform :
    FftwPlan → (from to : FftwExtents) → (src dst : ℕ) → Sign → (flags : ℕ) → M (Option FftwPlan)
c2c_transform f from to src dst sign flags = do
  let o = from.order
  others ← other_directions (along from to) (λ io. ltb io 3) 2 f.long_ni 0 (o.i4 ∷ o.i3 ∷ o.i2 ∷ [])
  let g = record f {
    offset =
        offsets sign (if f.in_place then from.stride.i4 else f.input.stride.i4)
          (if f.in_place then from.stride.i4 else f.output.stride.i4);
  }
  r ← invoke (
      plan_guru_split_dft (along from to f.long_ni ∷ [])
        (others ++ iodim from.size.i3 from.size.i4 to.size.i4 ∷ []) (src + g.offset.ri)
        (src + g.offset.ii) (dst + g.offset.ro) (dst + g.offset.io) flags)
  let h = record g { plan_fftw = r.out 0 }
  when h.plan_fftw == 0
      then fail h "fftw_plan_guru_split_dft returned NULL FFT plan"
      else pure (some h)

-- An in-place transform is reordered after it or before it; the plans of the reordering come first.
unfoldable pub c2c_reorder :
    FftwPlan
    → (input_is_long output_is_long : Bool) → (src dst : ℕ) → Sign
    → (flags : ℕ) → M (Option FftwPlan)
c2c_reorder f input_is_long output_is_long src dst sign flags =
    when not f.in_place
    then c2c_transform f f.input f.output src dst sign flags
    else when input_is_long
    then (do
      p ← reorder_complex src dst f.input f.output flags
      let g = record f { plan_postorder = p }
      when p == 0
          then fail g "!f->plan_postorder"
          else c2c_transform g f.input f.input src dst sign flags)
    else when output_is_long
    then (do
      p ← reorder_complex src dst f.input f.output flags
      let g = record f { plan_preorder = p }
      when p == 0
          then fail g "!f->plan_preorder"
          else c2c_transform g f.output f.output src dst sign flags)
    else error_null "!{input,output}_is_long" esanity

-- `underling_fftw_plan_create_c2c_internal`.
unfoldable pub c2c_internal :
    ℤ → (src dst : ℕ) → Sign → (rigor : ℕ) → (input output : FftwExtents) → M (Option FftwPlan)
c2c_internal long_ni src dst sign rigor input output = do
  k ← gets (λ w. w.env.fftw)
  checked (check_arguments k long_ni src dst rigor) (λ reason. error_null reason einval)
      (when not (is long_ni input.order.i2) && not (is long_ni output.order.i2)
        then error_null "Neither {input,output} is long" einval
        else do
          m ← invoke (malloc "struct underling_fftw_plan_s")
          when m.out 0 == 0
              then error_null "failed to allocate space for plan" enomem
              else c2c_reorder (initial m (nonneg long_ni) (type_of sign) input output src dst)
                  (is long_ni input.order.i2) (is long_ni output.order.i2) src dst sign
                  (bit_or rigor k.destroy_input))
