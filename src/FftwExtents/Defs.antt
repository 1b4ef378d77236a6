-- ===== src/FftwExtents/Defs.antt =====
-- Layouts with five indices, made from layouts with four.
use underling.Common.{
  ℕ, zero, suc, ◌+◌, ◌-◌, ◌*◌, ◌/◌, ◌%◌, ◌==◌, not, Bool, false, ℤ, pos, negsuc, nonneg, Option,
  none, some, List, [], ◌∷◌, if◌then◌else◌, String,
}
use underling.Machine.{M, when◌then◌else◌, pure, halt, endless, assert, ◌>>◌}
use underling.Error.{Status, einval, esanity, error_val}
use underling.Extents.Defs.{Four, get, set, Extents, or_else}

-- `int a[5]`.
pub record Five : Type 0 where
  pub i0 : ℕ
  pub i1 : ℕ
  pub i2 : ℕ
  pub i3 : ℕ
  pub i4 : ℕ

abbrev pub five : ℕ → ℕ → ℕ → ℕ → ℕ → Five
five a b c d e = record { i0 = a; i1 = b; i2 = c; i3 = d; i4 = e }

-- `a[k]`, as for `Four`.
unfoldable pub get5 : Five → ℕ → ℕ
get5 a k =
    if k == 0
    then a.i0
    else if k == 1
    then a.i1
    else if k == 2
    then a.i2
    else if k == 3
    then a.i3
    else if k == 4
    then a.i4
    else 0

unfoldable pub set5 : Five → ℕ → ℕ → Five
set5 a k v =
    if k == 0
    then record a { i0 = v }
    else if k == 1
    then record a { i1 = v }
    else if k == 2
    then record a { i2 = v }
    else if k == 3
    then record a { i3 = v }
    else if k == 4
    then record a { i4 = v }
    else a

-- `underling_fftw_extents`.
pub record FftwExtents : Type 0 where
  pub start : Five
  pub size : Five
  pub stride : Five
  pub order : Five

-- `UNDERLING_FFTW_EXTENTS_INVALID`.
abbrev pub invalid : FftwExtents
invalid = record {
  start = five 0 0 0 0 0;
  size = five 0 0 0 0 0;
  stride = five 0 0 0 0 0;
  order = five 0 0 0 0 0;
}

-- `underling_fftw_extents_cmp`, over the C library's `memcmp` on five ints.
unfoldable pub cmp : (Five → Five → ℤ) → FftwExtents → FftwExtents → ℤ
cmp memcmp e1 e2 = or_else (memcmp e1.start e2.start) (
    or_else (memcmp e1.size e2.size)
      (or_else (memcmp e1.stride e2.stride) (or_else (memcmp e1.order e2.order) (pos 0))))

-- The loop of `rotate_left`: each place takes the value behind it, and the last one `tmp`.
unfoldable pub shift : ℕ → List ℕ → List ℕ
shift tmp [] = []
shift tmp (x ∷ []) = tmp ∷ []
shift tmp (x ∷ y ∷ r) = y ∷ shift tmp (y ∷ r)

-- `rotate_left`.
unfoldable pub rotate_left : List ℕ → List ℕ
rotate_left [] = []
rotate_left (x ∷ xs) = shift x (x ∷ xs)

-- `rotate_left(e->order + 1, 3)`.
abbrev pub behind_first : ℕ → List ℕ → Four → Four
behind_first a (b ∷ c ∷ d ∷ []) o = record { i0 = a; i1 = b; i2 = c; i3 = d }
behind_first a _ o = o

unfoldable pub rotate_order : Four → Four
rotate_order o = behind_first o.i0 (rotate_left (o.i1 ∷ o.i2 ∷ o.i3 ∷ [])) o

-- A direction of the caller's against an entry of an array.
abbrev pub is : ℤ → ℕ → Bool
is (pos i) k = i == k
is (negsuc i) k = false

-- The loop that rotates until the long direction is the second fastest: the order and the number
-- of rotations, or `none` if the fuel runs out.
unfoldable pub rotate_until : ℕ → ℤ → Four → ℕ → Option (Four × ℕ)
rotate_until zero long_ni o n = none
rotate_until (suc fuel) long_ni o n =
    let rest = rotate_until fuel long_ni (rotate_order o) (n + 1) in
    if is long_ni o.i1 then some (o, n) else rest

-- The strides behind the first, anew.
unfoldable pub restride : Four → Four → Four → Four
restride order size stride =
    let s1 = set stride (get order 1) (get stride (get order 0) * get size (get order 0)) in
    let s2 = set s1 (get order 2) (get s1 (get order 1) * get size (get order 1)) in
    set s2 (get order 3) (get s2 (get order 2) * get size (get order 2))

unfoldable pub rotated : Extents → Option (Four × ℕ) → M (Extents × ℕ)
rotated e none = halt endless
rotated e (some (o, n)) = when n == 0 then pure (e, 0) else do
  assert (get e.stride (get o 0) == 1)
  pure (record e { order = o; stride = restride o e.size e.stride }, n)

-- `adjust_for_fast_stride_in_long_direction`. Three rounds of fuel tell whether the loop ends.
unfoldable pub adjust : Extents → ℤ → M (Extents × ℕ)
adjust e long_ni = rotated e (rotate_until 3 long_ni e.order 0)

-- `pack_strides_according_to_order`.
unfoldable pub packed_strides : Five → Five → Five → Five
packed_strides order size stride =
    let s0 = set5 stride (get5 order 0) 1 in
    let s1 = set5 s0 (get5 order 1) (get5 s0 (get5 order 0) * get5 size (get5 order 0)) in
    let s2 = set5 s1 (get5 order 2) (get5 s1 (get5 order 1) * get5 size (get5 order 1)) in
    let s3 = set5 s2 (get5 order 3) (get5 s2 (get5 order 2) * get5 size (get5 order 2)) in
    set5 s3 (get5 order 4) (get5 s3 (get5 order 3) * get5 size (get5 order 3))

unfoldable pub pack : FftwExtents → FftwExtents
pack e = record e { stride = packed_strides e.order e.size e.stride }

-- An entry more behind four.
abbrev pub extend : Four → ℕ → Five
extend a x = five a.i0 a.i1 a.i2 a.i3 x

-- The order moved up by one place, with the new index 4 as the fastest.
abbrev pub shifted_order : Four → Five
shifted_order o = five 4 o.i0 o.i1 o.i2 o.i3

-- The layout that `create_underling_fftw_extents_for_complex` returns.
unfoldable pub complex_layout : Extents → FftwExtents
complex_layout e = record {
  start = extend e.start 0;
  size = five e.size.i0 e.size.i1 e.size.i2 (e.size.i3 / 2) 2;
  stride = five e.stride.i0 e.stride.i1 e.stride.i2 (e.stride.i3 * 2) e.stride.i3;
  order = shifted_order e.order;
}

-- The length of a real direction: the complex one covers 2 * (n / 2 + 1) reals. No pencil has the
-- length 0 in its long direction, where the source would compute -2.
abbrev pub real_size : ℕ → ℕ
real_size n = if n == 1 then 1 else 2 * (n - 1)

-- The layout that `create_underling_fftw_extents_for_real` returns.
unfoldable pub real_layout : Extents → ℕ → FftwExtents
real_layout e long_ni =
    let size = set5 (extend e.size 1) long_ni (real_size (get e.size long_ni)) in
    let stride = set5 (extend e.stride 1) long_ni (get e.stride long_ni / 2) in
    record {
      start = extend e.start 0;
      size = set5 size 3 (get5 size 3 / 2);
      stride = set5 stride 3 1;
      order = shifted_order e.order;
    }

-- The checks that both functions make.
unfoldable pub check_layout : Extents → ℤ → Option (String × Status)
check_layout e long_ni =
    if not (e.size.i3 % 2 == 0)
    then some ("problem must have an even number of underling_real fields", einval)
    else if not (e.order.i0 == 3)
    then some ("Unknown interleaving: e.order[0] != 3", esanity)
    else if not (get e.start (nonneg long_ni) == 0)
    then some ("field does not start at zero: e.start[long_ni] != 0", einval)
    else none

unfoldable pub or_invalid : Option (String × Status) → M FftwExtents → M FftwExtents
or_invalid none go = go
or_invalid (some (reason, e)) go = error_val reason e invalid

-- `create_underling_fftw_extents_for_complex`.
unfoldable pub for_complex : Extents → ℤ → M FftwExtents
for_complex e long_ni = or_invalid (check_layout e long_ni) (pure (complex_layout e))

-- `create_underling_fftw_extents_for_real`. Its check for an even stride looks at the start.
unfoldable pub for_real : Extents → ℤ → M FftwExtents
for_real e long_ni = or_invalid (check_layout e long_ni) (
    when not (get e.start (nonneg long_ni) % 2 == 0)
    then error_val "field does not have even stride" einval invalid
    else when is long_ni e.order.i1
    then pure (real_layout e (nonneg long_ni))
    else error_val "Unknown interleaving: e.order[1] != long_ni" esanity invalid)
