-- ===== src/Fftw/Defs.antt =====
-- The plan's data, its destruction, its queries and its execution.
use underling.Common.{ℕ, ◌+◌, ◌==◌, not, ◌&&◌, Bool, Option, none, some, String, if◌then◌else◌}
use underling.Machine.{
  M, when◌then◌else◌, checked, pure, assert, ◌>>◌, perform, free, execute_r2r, execute_split_dft,
  execute_split_dft_c2r, execute_split_dft_r2c,
}
use underling.Error.{Status, success, einval, esanity, error_val, error_code}
use underling.FftwExtents.Defs.{Five, FftwExtents, invalid}
use underling.Plan.Defs.{release_plan}

-- `enum transform_type`.
pub data TransformType : Type 0 where
  unspecified c2c_forward c2c_backward c2r_backward r2c_forward : TransformType

-- The offsets of the real and the imaginary part in the two buffers.
pub record Offset : Type 0 where
  pub ri : ℕ
  pub ii : ℕ
  pub ro : ℕ
  pub io : ℕ

-- `struct underling_fftw_plan_s`, with the address of its memory block.
pub record FftwPlan : Type 0 where
  pub block : ℕ
  pub long_ni : ℕ
  pub type : TransformType
  pub input : FftwExtents
  pub plan_preorder : ℕ
  pub plan_fftw : ℕ
  pub plan_postorder : ℕ
  pub output : FftwExtents
  pub in_place : Bool
  pub offset : Offset

-- `underling_fftw_plan_destroy`.
unfoldable pub destroy : Option FftwPlan → M (Unit {0})
destroy none = pure tt
destroy (some f) = do
  release_plan f.plan_preorder
  release_plan f.plan_fftw
  release_plan f.plan_postorder
  perform (free f.block)

-- `underling_fftw_local_extents_input` and `underling_fftw_local_extents_output`.
unfoldable pub local_extents_input : Option FftwPlan → M FftwExtents
local_extents_input none = error_val "plan == NULL" einval invalid
local_extents_input (some f) = pure f.input

unfoldable pub local_extents_output : Option FftwPlan → M FftwExtents
local_extents_output none = error_val "plan == NULL" einval invalid
local_extents_output (some f) = pure f.output

-- What is written through each pointer of `underling_fftw_local_input` and
-- `underling_fftw_local_output`.
pub record FftwCopy : Type 0 where
  pub status : Status
  pub start : Option Five
  pub size : Option Five
  pub stride : Option Five
  pub order : Option Five

abbrev pub copied5 : Bool → Five → Option Five
copied5 wanted a = if wanted then some a else none

-- `underling_fftw_extents_copy`, with four flags that say which pointers are not NULL.
unfoldable pub extents_copy : FftwExtents → (start size stride order : Bool) → FftwCopy
extents_copy e start size stride order = record {
  status = success;
  start = copied5 start e.start;
  size = copied5 size e.size;
  stride = copied5 stride e.stride;
  order = copied5 order e.order;
}

abbrev pub not_copied : FftwCopy
not_copied = record { status = einval; start = none; size = none; stride = none; order = none }

unfoldable pub local_input : Option FftwPlan → (start size stride order : Bool) → M FftwCopy
local_input none start size stride order = error_val "plan == NULL" einval not_copied
local_input (some f) start size stride order = pure (extents_copy f.input start size stride order)

unfoldable pub local_output : Option FftwPlan → (start size stride order : Bool) → M FftwCopy
local_output none start size stride order = error_val "plan == NULL" einval not_copied
local_output (some f) start size stride order = pure (extents_copy f.output start size stride order)

-- The checks of `underling_fftw_plan_execute`.
unfoldable pub check_execution : FftwPlan → (src dst : ℕ) → Option String
check_execution f src dst =
    if f.plan_fftw == 0
    then some "plan->plan_fftw == NULL"
    else if src == 0
    then some "in == NULL"
    else if dst == 0
    then some "out == NULL"
    else if f.in_place && not (src == dst)
    then some "in-place plan but in != out"
    else if not f.in_place && src == dst
    then some "out-of-place plan but in == out"
    else none

-- A reordering plan, if there is one.
unfoldable pub reorder : FftwPlan → (plan src dst : ℕ) → M (Unit {0})
reorder f plan src dst =
    when plan == 0
    then pure tt
    else do assert (f.in_place && src == dst); perform (execute_r2r plan src dst)

-- The switch on the type. The statement that follows is not reached for a type that is not known.
unfoldable pub transform : TransformType → FftwPlan → (src dst : ℕ) → M Status → M Status
transform unspecified f src dst go = error_code "Unknown plan->type" esanity
transform c2c_forward f src dst go =
    perform (
      execute_split_dft f.plan_fftw (src + f.offset.ri) (src + f.offset.ii) (dst + f.offset.ro)
        (dst + f.offset.io))
    >> go
transform c2c_backward f src dst go =
    perform (
      execute_split_dft f.plan_fftw (src + f.offset.ri) (src + f.offset.ii) (dst + f.offset.ro)
        (dst + f.offset.io))
    >> go
transform c2r_backward f src dst go =
    perform (execute_split_dft_c2r f.plan_fftw (src + f.offset.ri) (src + f.offset.ii) dst) >> go
transform r2c_forward f src dst go =
    perform (execute_split_dft_r2c f.plan_fftw src (dst + f.offset.ro) (dst + f.offset.io)) >> go

-- `underling_fftw_plan_execute`.
unfoldable pub execute : Option FftwPlan → (src dst : ℕ) → M Status
execute none src dst = error_code "plan == NULL" einval
execute (some f) src dst =
    checked (check_execution f src dst) (λ reason. error_code reason einval)
      do
        reorder f f.plan_preorder src dst
        transform f.type f src dst (reorder f f.plan_postorder src dst >> pure success)
