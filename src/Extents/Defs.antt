-- ===== src/Extents/Defs.antt =====
-- The extents, their comparison, and strides from an order.
use underling.Common.{ℕ, ◌*◌, ◌^◌, ◌==◌, ltb, ◌&&◌, Bool, ℤ, pos, negsuc, if◌then◌else◌}

-- `int a[4]`.
pub record Four : Type 0 where
  pub i0 : ℕ
  pub i1 : ℕ
  pub i2 : ℕ
  pub i3 : ℕ

abbrev pub four : ℕ → ℕ → ℕ → ℕ → Four
four a b c d = record { i0 = a; i1 = b; i2 = c; i3 = d }

-- `a[k]`. The code uses no index past 3; the model reads 0 there and writes nothing.
unfoldable pub get : Four → ℕ → ℕ
get a k =
    if k == 0
    then a.i0
    else if k == 1
    then a.i1
    else if k == 2
    then a.i2
    else if k == 3
    then a.i3
    else 0

unfoldable pub set : Four → ℕ → ℕ → Four
set a k v =
    if k == 0
    then record a { i0 = v }
    else if k == 1
    then record a { i1 = v }
    else if k == 2
    then record a { i2 = v }
    else if k == 3
    then record a { i3 = v }
    else a

-- `underling_extents`.
pub record Extents : Type 0 where
  pub start : Four
  pub size : Four
  pub stride : Four
  pub order : Four
  pub extent : ℕ

-- `UNDERLING_EXTENTS_INVALID`.
abbrev pub invalid : Extents
invalid = record {
  start = four 0 0 0 0;
  size = four 0 0 0 0;
  stride = four 0 0 0 0;
  order = four 0 0 0 0;
  extent = 0;
}

-- One comparison of a row of them: its result stands if it is not zero.
abbrev pub or_else : ℤ → ℤ → ℤ
or_else (pos n) next = if n == 0 then next else pos n
or_else (negsuc n) next = negsuc n

-- `underling_extents_cmp`, over the C library's `memcmp` on four ints.
unfoldable pub cmp : (Four → Four → ℤ) → Extents → Extents → ℤ
cmp memcmp e1 e2 = or_else (memcmp e1.start e2.start) (
    or_else (memcmp e1.size e2.size)
      (or_else (memcmp e1.stride e2.stride) (or_else (memcmp e1.order e2.order) (pos 0))))

-- The strides that follow from the order and the sizes, each written and read back in turn.
unfoldable pub packed_strides : Four → Four → Four → Four
packed_strides order size stride =
    let s0 = set stride (get order 0) 1 in
    let s1 = set s0 (get order 1) (get s0 (get order 0) * get size (get order 0)) in
    let s2 = set s1 (get order 2) (get s1 (get order 1) * get size (get order 1)) in
    set s2 (get order 3) (get s2 (get order 2) * get size (get order 2))

unfoldable pub volume : Four → ℕ
volume s = s.i0 * s.i1 * s.i2 * s.i3

-- The body of the loop of `underling_problem_create` that fixes strides and extent.
unfoldable pub finish : Extents → Extents
finish e = record e { stride = packed_strides e.order e.size e.stride; extent = volume e.size }

abbrev pub int_bound : ℕ
int_bound = 2 ^ 31

-- No product of that body overflows an `int`.
unfoldable pub fits_int : Extents → Bool
fits_int e =
    let o = e.order in
    let s = e.size in
    ltb (1 * get s (get o 0)) int_bound
    && ltb (1 * get s (get o 0) * get s (get o 1)) int_bound
    && ltb (1 * get s (get o 0) * get s (get o 1) * get s (get o 2)) int_bound
    && ltb (s.i0 * s.i1) int_bound
    && ltb (s.i0 * s.i1 * s.i2) int_bound
    && ltb (volume s) int_bound
