-- ===== src/Problem/Layout.antt =====
-- The layouts of a problem that is created.
use underling.Common.{
  ℕ, ◌<◌, ◌≡◌, refl, Bool-cases, inl, inr, ℤ, nonneg, String, Option, none, some, arith,
}
use underling.Machine.{World, Reply, ok}
use underling.Machine.Yields.{Yields, returns, halts, bind, cases, passes}
use underling.Error.{error_null, error_val, mpichkn}
use underling.Extents.Defs.{Four, four, get, Extents, packed_strides, volume, finish}
use underling.Extents.Layout.{
  IsOrder, IsWithin, count, address, address-lt-count, address-injective,
}
use underling.Grid.Defs.{Grid}
use underling.Transpose.Defs.{Transpose}
use underling.Problem.Defs.{
  Problem, Share, has_flag, transposed_long_n0, transposed_long_n2, order_long_n0, order_long_n1,
  order_long_n2, layout_n0, layout_n1, layout_n2, unfinished, laid_out,
}
use underling.Problem.Create.{
  require, with_local_memory, create_forward, create_backward, share_blocks, decompose, allocate,
  given, create,
}

-- Whatever holds of the layouts before the transposes are made holds of the result.
module _ (P : Extents → Extents → Extents → Type 0) where
  abbrev Layouts : Option Problem → Type 0
  Layouts none = Unit
  Layouts (some p) = P p.long_n0 p.long_n1 p.long_n2

  require-Layouts :
      (p : Problem) (reason : String) (t : Option Transpose) (go : Transpose → _)
      → ((u : Transpose) → Yields (go u) Layouts)
      → Yields (require p reason t go) Layouts
  unfolding require error_null error_val
  require-Layouts p reason none go q = bind _ λ _. bind _ λ _. returns none tt
  require-Layouts p reason (some t) go q = q t

  create_backward-Layouts :
      (g : Grid) (p : Problem) (flags : ℕ) (a b : Reply)
      → P p.long_n0 p.long_n1 p.long_n2
      → Yields (create_backward g p flags a b) Layouts
  unfolding create_backward create_forward with_local_memory
  create_backward-Layouts g p flags a b h = bind _ λ k. bind _ λ bA. require-Layouts _ _ bA _ λ t.
      bind _ λ bB. require-Layouts _ _ bB _ λ u.
        bind _
          λ fB. require-Layouts _ _ fB _ λ v. bind _ λ fA. require-Layouts _ _ fA _ λ x. returns _ h

  share_blocks-Layouts :
      (g : Grid) (p : Problem) (flags : ℕ)
      → P p.long_n0 p.long_n1 p.long_n2
      → Yields (share_blocks g p flags) Layouts
  unfolding share_blocks mpichkn
  share_blocks-Layouts g p flags h =
      cases (λ _. halts _)
        λ _. bind _ λ a.
          cases (λ _. bind _ λ _. returns none tt)
            λ _. bind _ λ b.
              cases (λ _. bind _ λ _. returns none tt) λ _. create_backward-Layouts g p flags a b h

  create-Layouts :
      (g : Grid) (howmany : ℤ) (flags : ℕ)
      → ((i : ℕ) (lB lA : Reply)
          → let p = laid_out i g (nonneg howmany) flags lB lA in P p.long_n0 p.long_n1 p.long_n2)
      → Yields (create (some g) howmany flags) Layouts
  unfolding create given allocate decompose error_null error_val
  create-Layouts g howmany flags h =
      passes (λ _. bind _ λ _. returns none tt)
        λ _. bind _ λ m.
          cases (λ _. bind _ λ _. returns none tt)
            λ _. bind _ λ k.
              bind _ λ lB.
                bind _ λ _. bind _ λ lA. bind _ λ _. share_blocks-Layouts g _ flags (h _ lB lA)

-- The strides follow from the order, and the extent counts the elements.
pub record IsPacked (e : Extents) : Type 0 where
  pub is_order : IsOrder e.order
  pub before : Four
  pub strides : e.stride ≡ packed_strides e.order e.size before
  pub counts : e.extent ≡ count e.order e.size

-- The memory is cleared before the strides are written.
abbrev cleared : Four
cleared = four 0 0 0 0

layout_n2-IsPacked :
    (g : Grid) (howmany flags : ℕ) (b a : Share) → IsPacked (finish (layout_n2 g howmany flags b a))
unfolding finish layout_n2 unfinished order_long_n2 get volume
layout_n2-IsPacked g howmany flags b a = elim (Bool-cases (has_flag flags transposed_long_n2)) [
  | inl e ↦
      rw e
        (record { is_order = omega arith; before = cleared; strides = refl; counts = omega arith })
  | inr e ↦
      rw e
        (record { is_order = omega arith; before = cleared; strides = refl; counts = omega arith })
]

layout_n1-IsPacked :
    (g : Grid) (howmany : ℕ) (b a : Share) → IsPacked (finish (layout_n1 g howmany b a))
unfolding finish layout_n1 unfinished order_long_n1 get volume
layout_n1-IsPacked g howmany b a = record {
  is_order = omega arith;
  before = cleared;
  strides = refl;
  counts = omega arith;
}

layout_n0-IsPacked :
    (g : Grid) (howmany flags : ℕ) (b a : Share) → IsPacked (finish (layout_n0 g howmany flags b a))
unfolding finish layout_n0 unfinished order_long_n0 get volume
layout_n0-IsPacked g howmany flags b a = elim (Bool-cases (has_flag flags transposed_long_n0)) [
  | inl e ↦
      rw e
        (record { is_order = omega arith; before = cleared; strides = refl; counts = omega arith })
  | inr e ↦
      rw e
        (record { is_order = omega arith; before = cleared; strides = refl; counts = omega arith })
]

laid_out-IsPacked :
    (i : ℕ) (g : Grid) (howmany flags : ℕ) (lB lA : Reply)
    → let p = laid_out i g howmany flags lB lA in
      IsPacked p.long_n0 × IsPacked p.long_n1 × IsPacked p.long_n2
unfolding laid_out
laid_out-IsPacked i g howmany flags lB lA =
    (layout_n0-IsPacked _ _ _ _ _, layout_n1-IsPacked _ _ _ _, layout_n2-IsPacked _ _ _ _ _)

-- Every index within the sizes has an address of its own below the extent.
pub record Addresses (e : Extents) : Type 0 where
  pub below_extent : (x : Four) → IsWithin e.order e.size x → address e.order e.stride x < e.extent
  pub one_to_one :
      (x y : Four)
      → IsWithin e.order e.size x
      → IsWithin e.order e.size y
      → address e.order e.stride x ≡ address e.order e.stride y
      → (get x e.order.i0 ≡ get y e.order.i0)
        × (get x e.order.i1 ≡ get y e.order.i1)
        × (get x e.order.i2 ≡ get y e.order.i2)
        × (get x e.order.i3 ≡ get y e.order.i3)

pub IsPacked-Addresses : (e : Extents) → IsPacked e → Addresses e
IsPacked-Addresses e p = record {
  below_extent =
      λ x i. rw (p.strides, p.counts) (address-lt-count e.order e.size p.before x p.is_order i);
  one_to_one =
      λ x y i j h. address-injective e.order e.size p.before x y p.is_order i j (rw p.strides at h);
}

pub create-IsPacked :
    (g : Grid) (howmany : ℤ) (flags : ℕ) (w w' : World) (p : Problem)
    → create (some g) howmany flags w ≡ ok (some p) w'
    → IsPacked p.long_n0 × IsPacked p.long_n1 × IsPacked p.long_n2
create-IsPacked g howmany flags w w' p =
    (create-Layouts (λ e0 e1 e2. IsPacked e0 × IsPacked e1 × IsPacked e2) g howmany flags
        λ i lB lA. laid_out-IsPacked i g (nonneg howmany) flags lB lA).run
      w w' (some p)

-- In each of the three pencils of a problem that is created, every index within the sizes has an
-- address of its own below the extent.
pub create-Addresses :
    (g : Grid) (howmany : ℤ) (flags : ℕ) (w w' : World) (p : Problem)
    → create (some g) howmany flags w ≡ ok (some p) w'
    → Addresses p.long_n0 × Addresses p.long_n1 × Addresses p.long_n2
create-Addresses g howmany flags w w' p h =
    let q = create-IsPacked g howmany flags w w' p h in
    (IsPacked-Addresses _ q.0, IsPacked-Addresses _ q.1, IsPacked-Addresses _ q.2)

-- Each pencil holds all of the direction in which it is long and all fields, and each pair of
-- pencils that a transpose connects has the same share of the direction that it leaves alone.
pub record IsPencils (g : Grid) (howmany : ℕ) (e0 e1 e2 : Extents) : Type 0 where
  pub long0 : (e0.size.i0 ≡ g.n0) × (e0.start.i0 ≡ 0)
  pub long1 : (e1.size.i1 ≡ g.n1) × (e1.start.i1 ≡ 0)
  pub long2 : (e2.size.i2 ≡ g.n2) × (e2.start.i2 ≡ 0)
  pub fields :
      (e0.size.i3 ≡ howmany)
      × (e1.size.i3 ≡ howmany)
      × (e2.size.i3 ≡ howmany)
      × (e0.start.i3 ≡ 0)
      × (e1.start.i3 ≡ 0)
      × (e2.start.i3 ≡ 0)
  pub same12 : (e1.size.i0 ≡ e2.size.i0) × (e1.start.i0 ≡ e2.start.i0)
  pub same01 : (e0.size.i2 ≡ e1.size.i2) × (e0.start.i2 ≡ e1.start.i2)
  pub interleaved : (e0.order.i0 ≡ 3) × (e1.order.i0 ≡ 3) × (e2.order.i0 ≡ 3)

laid_out-IsPencils :
    (i : ℕ) (g : Grid) (howmany flags : ℕ) (lB lA : Reply)
    → let p = laid_out i g howmany flags lB lA in IsPencils g howmany p.long_n0 p.long_n1 p.long_n2
unfolding laid_out finish layout_n0 layout_n1 layout_n2 unfinished order_long_n0 order_long_n1
    order_long_n2
laid_out-IsPencils i g howmany flags lB lA = ground arith

-- A problem that is created has the pencils of its grid.
pub create-IsPencils :
    (g : Grid) (howmany : ℤ) (flags : ℕ) (w w' : World) (p : Problem)
    → create (some g) howmany flags w ≡ ok (some p) w'
    → IsPencils g (nonneg howmany) p.long_n0 p.long_n1 p.long_n2
create-IsPencils g howmany flags w w' p =
    (create-Layouts (IsPencils g (nonneg howmany)) g howmany flags
        λ i lB lA. laid_out-IsPencils i g (nonneg howmany) flags lB lA).run
      w w' (some p)
