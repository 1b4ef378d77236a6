-- ===== src/Fftw/Adjust.antt =====
-- The adjustment of a pencil of a problem to a transform along its long direction.
use underling.Common.{
  ℕ, ◌<◌, ◌==◌, ◌≡◌, refl, sym, ◌≢◌, ◌⊎◌, inl, inr, true, Bool-cases, ℤ, pos, some, arith, ◌∙◌,
}
use underling.Machine.{World, ok, stepping}
use underling.Extents.Defs.{Four, get, set, Extents, packed_strides}
use underling.Extents.Layout.{IsOrder, count, packed_strides-get, get_order}
use underling.Grid.Defs.{Grid}
use underling.Problem.Defs.{Problem}
use underling.Problem.Create.{create}
use underling.Problem.Query.{pencil}
use underling.Problem.Layout.{
  IsPacked, IsPacked-Addresses, Addresses, create-IsPacked, create-IsPencils,
}
use underling.FftwExtents.Defs.{
  shift, rotate_left, rotate_order, is, rotate_until, restride, rotated, adjust,
}
use underling.FftwExtents.Rotate.{found, turned, third}

set-get_one : (a : Four) (k : ℕ) → k < 4 → get a k ≡ 1 → set a k 1 ≡ a
unfolding get set
set-get_one a k h e = ground arith

-- Where the fastest stride is 1 already, the strides behind it are the packed ones.
restride-packed :
    (o s t : Four) → IsOrder o → get t o.i0 ≡ 1 → restride o s t ≡ packed_strides o s t
unfolding restride packed_strides get
restride-packed o s t h e = rw (set-get_one t o.i0 h.lt0 e) refl

rotate_order-IsOrder : (o : Four) → IsOrder o → IsOrder (rotate_order o)
unfolding rotate_order rotate_left shift
rotate_order-IsOrder o h =
    omega (arith, h.lt0, h.lt1, h.lt2, h.lt3, h.ne01, h.ne02, h.ne03, h.ne12, h.ne13, h.ne23)

first_stays : (o : Four) → (rotate_order o).i0 ≡ o.i0
unfolding rotate_order rotate_left shift
first_stays o = refl

second_comes : (o : Four) → ((rotate_order o).i1 ≡ o.i2) × ((rotate_order o).i2 ≡ o.i3)
unfolding rotate_order rotate_left shift
second_comes o = (refl, refl)

count-rotate_order : (o s : Four) → count (rotate_order o) s ≡ count o s
unfolding rotate_order rotate_left shift
count-rotate_order o s = omega arith

-- What an adjusted layout satisfies.
pub record IsAdjusted (e : Extents) (l : ℤ) (a : Extents) : Type 0 where
  pub packed : IsPacked a
  pub second : is l a.order.i1 ≡ true
  pub first : a.order.i0 ≡ e.order.i0
  pub size : a.size ≡ e.size
  pub start : a.start ≡ e.start
  pub extent : a.extent ≡ e.extent

abbrev with_order : Extents → Four → Extents
with_order e o = record e { order = o; stride = restride o e.size e.stride }

with_order-IsPacked :
    (e : Extents) (o : Four)
    → IsPacked e
    → IsOrder o
    → o.i0 ≡ e.order.i0
    → count o e.size ≡ count e.order e.size
    → IsPacked (with_order e o)
with_order-IsPacked e o p h f c = record {
  is_order = h;
  before = e.stride;
  strides =
      restride-packed o e.size e.stride h
        (rw (p.strides, f) (packed_strides-get e.order e.size p.before p.is_order).0);
  counts = p.counts ∙ sym c;
}

rotated-with_order :
    (e : Extents) (o : Four) (n : ℕ) (u : World)
    → n ≢ 0
    → get e.stride (get o 0) ≡ 1
    → rotated e (some (o, n)) u ≡ ok (with_order e o, n) u
unfolding rotated stepping
rotated-with_order e o n u h i = ground arith

fastest-one : (e : Extents) (o : Four) → IsPacked e → o.i0 ≡ e.order.i0 → get e.stride (get o 0) ≡ 1
unfolding get
fastest-one e o p f =
    rw (get_order o, p.strides, f) (packed_strides-get e.order e.size p.before p.is_order).0

-- A rotation of the order whose second entry is the direction ends the adjustment.
turned-IsAdjusted :
    (e : Extents) (l : ℤ) (o : Four) (n : ℕ) (u : World)
    → IsPacked e
    → n ≢ 0
    → IsOrder o
    → o.i0 ≡ e.order.i0
    → count o e.size ≡ count e.order e.size
    → is l o.i1 ≡ true
    → rotate_until 3 l e.order 0 ≡ some (o, n)
    → (a : Extents) × (n : ℕ) × (adjust e l u ≡ ok (a, n) u) × IsAdjusted e l a
unfolding adjust
turned-IsAdjusted e l o n u p h order f c d q = (
  with_order e o,
  n,
  rw q (rotated-with_order e o n u h (fastest-one e o p f)),
  record {
    packed = with_order-IsPacked e o p order f c;
    second = d;
    first = f;
    size = refl;
    start = refl;
    extent = refl;
  },
)

adjust-IsAdjusted :
    (e : Extents) (l : ℤ) (u : World)
    → IsPacked e
    → (is l e.order.i1 ≡ true) ⊎ ((is l e.order.i2 ≡ true) ⊎ (is l e.order.i3 ≡ true))
    → (a : Extents) × (n : ℕ) × (adjust e l u ≡ ok (a, n) u) × IsAdjusted e l a
unfolding adjust rotated stepping
adjust-IsAdjusted e l u p d =
    let o = e.order in
    let o' = rotate_order o in
    let h' = rotate_order-IsOrder o p.is_order in
    let c' = count-rotate_order o e.size in
    elim (Bool-cases (is l o.i1)) [
      | inl h1 ↦ (
        e,
        0,
        rw (found 2 l o 0 h1) refl,
        record { packed = p; second = h1; first = refl; size = refl; start = refl; extent = refl },
      )
      | inr h1 ↦ elim (Bool-cases (is l o.i2)) [
        | inl h2 ↦
            turned-IsAdjusted e l o' 1 u p (omega arith) h' (first_stays o) c'
              (rw (second_comes o).0 h2)
              (turned 2 l o 0 h1 ∙ found 1 l o' 1 (rw (second_comes o).0 h2))
        | inr h2 ↦
            let h3 = third _ _ _ d h1 h2 in
            turned-IsAdjusted e l (rotate_order o') 2 u p (omega arith) (rotate_order-IsOrder o' h')
              (first_stays o' ∙ first_stays o) (count-rotate_order o' e.size ∙ c')
              (rw ((second_comes o').0, (second_comes o).1) h3)
              (turned 2 l o 0 h1
                ∙ (turned 1 l o' 1 (rw (second_comes o).0 h2)
                    ∙ found 0 l (rotate_order o') 2
                        (rw ((second_comes o').0, (second_comes o).1) h3)))
      ]
    ]

-- The long direction of a pencil with interleaved fields is among the last three entries.
direction_among :
    (o : Four) (i : ℕ)
    → IsOrder o
    → o.i0 ≡ 3
    → i < 3
    → (is (pos i) o.i1 ≡ true) ⊎ ((is (pos i) o.i2 ≡ true) ⊎ (is (pos i) o.i3 ≡ true))
direction_among o i h e l = ground arith

pencil-IsPacked :
    (g : Grid) (howmany : ℤ) (flags : ℕ) (w w' : World) (p : Problem)
    → create (some g) howmany flags w ≡ ok (some p) w'
    → (j : ℕ) → IsPacked (pencil p j) × ((pencil p j).order.i0 ≡ 3)
unfolding pencil
pencil-IsPacked g howmany flags w w' p h j =
    let q = create-IsPacked g howmany flags w w' p h in
    let s = create-IsPencils g howmany flags w w' p h in
    elim (Bool-cases (j == 0)) [
      | inl e ↦ rw e (q.0, s.interleaved.0)
      | inr e ↦ elim (Bool-cases (j == 1)) [
        | inl e' ↦ rw (e, e') (q.1, s.interleaved.1)
        | inr e' ↦ rw (e, e') (q.2, s.interleaved.2)
      ]
    ]

-- In each pencil of a problem that is created, the adjustment to any direction ends without an
-- error and without a call. The adjusted layout has the direction second behind the fields, the
-- same start, size and extent, and an address of its own below the extent for every index.
pub create-adjusts :
    (g : Grid) (howmany : ℤ) (flags : ℕ) (w w' u : World) (p : Problem) (j i : ℕ)
    → create (some g) howmany flags w ≡ ok (some p) w'
    → i < 3
    → (a : Extents) × (n : ℕ) × (adjust (pencil p j) (pos i) u ≡ ok (a, n) u)
      × IsAdjusted (pencil p j) (pos i) a
      × Addresses a
create-adjusts g howmany flags w w' u p j i h l =
    let q = pencil-IsPacked g howmany flags w w' p h j in
    let (a, n, e, r) =
      adjust-IsAdjusted (pencil p j) (pos i) u q.0 (direction_among _ i q.0.is_order q.1 l) in
    (a, n, e, r, IsPacked-Addresses a r.packed)
