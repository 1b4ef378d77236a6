-- ===== src/Exchange/Places.antt =====
-- Where the layouts of a problem put an element, against the blocks that FFTW reads and writes.
use native.Mathlib.Nat.{
  mul-sub, mul-lt-mul_of_pos_left, lt_of_mul-lt-mul_left, le_of_mul-le-mul_right,
}
use underling.Common.{
  ℕ, zero, suc, ◌+◌, ◌-◌, ◌*◌, ◌≤◌, ◌<◌, ◌≡◌, sym, ap, ◌∙◌, ltb, Bool-cases, inl, inr,
  if◌then◌else◌, arith,
}
use underling.Extents.Defs.{Four, four, get, set, Extents, packed_strides, finish}
use underling.Extents.Layout.{address}
use underling.Grid.Defs.{Grid}
use underling.Problem.Defs.{
  Share, has_flag, transposed_long_n2, transposed_long_n0, layout_n0, layout_n1, layout_n2,
  unfinished, order_long_n0, order_long_n1, order_long_n2,
}
use underling.Exchange.Defs.{part, place}

-- The address that the extents give to local indices.
abbrev pub address_of : Extents → Four → ℕ
address_of e x = address e.order e.stride x

module _ (g : Grid) (m flags : ℕ) (b a : Share) (i0 i1 i2 h : ℕ) where
  pub layout_n2-place :
      address_of (finish (layout_n2 g m flags b a)) (four i0 i1 i2 h)
      ≡ place (has_flag flags transposed_long_n2) (b.size * a.size) g.n2 m (i0 * a.size + i1) i2 h
  unfolding finish layout_n2 unfinished order_long_n2 get set packed_strides
  layout_n2-place = elim (Bool-cases (has_flag flags transposed_long_n2)) [
    | inl e ↦ rw e (omega arith)
    | inr e ↦ rw e (omega arith)
  ]

  pub layout_n1-place :
      address_of (finish (layout_n1 g m b a)) (four i0 i1 i2 h)
      ≡ ((i2 * b.size + i0) * g.n1 + i1) * m + h
  unfolding finish layout_n1 unfinished order_long_n1 get set packed_strides
  layout_n1-place = omega arith

  pub layout_n0-place : address_of (finish (layout_n0 g m flags b a)) (four i0 i1 i2 h) ≡ (
      if has_flag flags transposed_long_n0
      then ((i0 * b.size + i1) * a.size + i2) * m + h
      else ((i1 * a.size + i2) * g.n0 + i0) * m + h)
  unfolding finish layout_n0 unfinished order_long_n0 get set packed_strides
  layout_n0-place = elim (Bool-cases (has_flag flags transposed_long_n0)) [
    | inl e ↦ rw e (omega arith)
    | inr e ↦ rw e (omega arith)
  ]

scaled :
    (l x b : ℕ)
    → (if ltb (suc l * x) (suc l * b) then suc l * x else suc l * b)
      ≡ suc l * (if ltb x b then x else b)
scaled l x b = elim (Bool-cases (ltb x b)) [
  | inl e ↦ ground (arith, e, λ (y : x < b). mul-lt-mul_of_pos_left {k = suc l} y (omega arith))
  | inr e ↦ ground (arith, e, λ (y : suc l * x < suc l * b). lt_of_mul-lt-mul_left (suc l) y)
]

-- The parts of rows that come in bundles of `l` are the bundles of the parts.
pub part-mul : (l d b r : ℕ) → part (l * d) (l * b) r ≡ l * part d b r
part-mul zero d b r = ground arith
part-mul (suc l) d b r =
    let e : suc l * d - r * (suc l * b) ≡ suc l * (d - r * b) =
      ap (λ x. suc l * d - x) (omega arith) ∙ sym (mul-sub (suc l) d (r * b)) in
    rw e (scaled l (d - r * b) b)

-- Two elements of one part are in one place only if they are one.
pub place-injective : (a b m h : ℕ) → h < m → a * m + h ≡ b * m + h → a ≡ b
place-injective a b zero h l e = absurd (omega arith)
place-injective a b (suc m) h l e =
    let up : a ≤ b = le_of_mul-le-mul_right {k = suc m} (omega (arith, e)) (omega arith) in
    let down : b ≤ a = le_of_mul-le-mul_right {k = suc m} (omega (arith, e)) (omega arith) in
    omega (arith, up, down)
