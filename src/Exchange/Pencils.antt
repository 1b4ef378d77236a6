-- ===== src/Exchange/Pencils.antt =====
-- Which part of the domain the pencils of a process hold, and where they put it.
use underling.Common.{ℕ, ◌+◌, ◌*◌, ◌≡◌, ◌≢◌, refl, ℤ, nonneg, some, if◌then◌else◌}
use underling.Machine.{World, FftwConstants, Reply, ok}
use underling.Extents.Defs.{Four, Extents, finish}
use underling.Grid.Defs.{Grid}
use underling.Problem.Defs.{
  Problem, has_flag, transposed_long_n2, transposed_long_n0, layout_n0, layout_n1, layout_n2,
  first_share, second_share, unfinished,
}
use underling.Problem.Create.{create}
use underling.Exchange.Defs.{Shape, part, place}
use underling.Exchange.Shares.{Agreed, Process, create-Agreed}
use underling.Exchange.Blocks.{Blocks, IsShared}
use underling.Exchange.Places.{address_of, layout_n0-place, layout_n1-place, layout_n2-place}

module _ (g : Grid) (m flags : ℕ) (c : Blocks) (ra rb : ℕ) where
  -- A pencil that is not empty in a direction has its share of it, and each has its elements row by row in the
  -- order of its layout.
  pub record HasShares (e0 e1 e2 : Extents) : Type 0 where
    pub long0 : (e0.size.i0 ≡ g.n0) × (e0.start.i0 ≡ 0)
    pub long1 : (e1.size.i1 ≡ g.n1) × (e1.start.i1 ≡ 0)
    pub long2 : (e2.size.i2 ≡ g.n2) × (e2.start.i2 ≡ 0)
    pub fields : (e0.size.i3 ≡ m) × (e1.size.i3 ≡ m) × (e2.size.i3 ≡ m)
    pub size0 : (e2.size.i0 ≡ part g.n0 c.n0_b rb) × (e1.size.i0 ≡ part g.n0 c.n0_b rb)
    pub start0 : e1.size.i0 ≢ 0 → (e2.start.i0 ≡ rb * c.n0_b) × (e1.start.i0 ≡ rb * c.n0_b)
    pub size1 : (e2.size.i1 ≡ part g.n1 c.n1_a ra) × (e0.size.i1 ≡ part g.n1 c.n1_b rb)
    pub start1_a : e2.size.i1 ≢ 0 → e2.start.i1 ≡ ra * c.n1_a
    pub start1_b : e0.size.i1 ≢ 0 → e0.start.i1 ≡ rb * c.n1_b
    pub size2 : (e1.size.i2 ≡ part g.n2 c.n2_a ra) × (e0.size.i2 ≡ part g.n2 c.n2_a ra)
    pub start2 : e1.size.i2 ≢ 0 → (e1.start.i2 ≡ ra * c.n2_a) × (e0.start.i2 ≡ ra * c.n2_a)
    pub at2 :
        (x : Four)
        → address_of e2 x
          ≡ place
              (has_flag flags transposed_long_n2)
              (e2.size.i0 * e2.size.i1)
              g.n2
              m
              (x.i0 * e2.size.i1 + x.i1)
              x.i2
              x.i3
    pub at1 : (x : Four) → address_of e1 x ≡ ((x.i2 * e1.size.i0 + x.i0) * g.n1 + x.i1) * m + x.i3
    pub at0 :
        (x : Four)
        → address_of e0 x ≡ (
            if has_flag flags transposed_long_n0
            then ((x.i0 * e0.size.i1 + x.i1) * e0.size.i2 + x.i2) * m + x.i3
            else ((x.i1 * e0.size.i2 + x.i2) * g.n0 + x.i0) * m + x.i3)

  layouts-HasShares :
      (b a : Reply)
      → IsShared g.n0 g.n1 c.n0_b c.n1_b rb b
      → IsShared g.n1 g.n2 c.n1_a c.n2_a ra a
      → HasShares
          (finish (layout_n0 g m flags (second_share b) (second_share a)))
          (finish (layout_n1 g m (first_share b) (second_share a)))
          (finish (layout_n2 g m flags (first_share b) (first_share a)))
  unfolding finish layout_n0 layout_n1 layout_n2 unfinished first_share second_share
  layouts-HasShares b a of_b of_a = record {
    long0 = (refl, refl);
    long1 = (refl, refl);
    long2 = (refl, refl);
    fields = (refl, refl, refl);
    size0 = (of_b.size0, of_b.size0);
    start0 = λ n. (of_b.start0 n, of_b.start0 n);
    size1 = (of_a.size0, of_b.size1);
    start1_a = of_a.start0;
    start1_b = of_b.start1;
    size2 = (of_a.size1, of_a.size1);
    start2 = λ n. (of_a.start1 n, of_a.start1 n);
    at2 = λ x. layout_n2-place g m flags (first_share b) (first_share a) x.i0 x.i1 x.i2 x.i3;
    at1 = λ x. layout_n1-place g m flags (first_share b) (second_share a) x.i0 x.i1 x.i2 x.i3;
    at0 = λ x. layout_n0-place g m flags (second_share b) (second_share a) x.i0 x.i1 x.i2 x.i3;
  }

  Agreed-HasShares :
      (k : FftwConstants) (e0 e1 e2 : Extents) (a b : Shape)
      → Agreed k g m flags c ra rb e0 e1 e2 a b
      → HasShares e0 e1 e2
  Agreed-HasShares k e0 e1 e2 a b y =
      rw (y.long_n0, y.long_n1, y.long_n2) (layouts-HasShares y.share_b y.share_a y.of_b y.of_a)

pub create-HasShares :
    (g : Grid) (howmany : ℤ) (flags : ℕ) (c : Blocks) (ra rb : ℕ) (w w' : World) (p : Problem)
    → Process w.env g (nonneg howmany) flags c ra rb
    → create (some g) howmany flags w ≡ ok (some p) w'
    → HasShares g (nonneg howmany) flags c ra rb p.long_n0 p.long_n1 p.long_n2
create-HasShares g howmany flags c ra rb w w' p d h =
    let (s, t, have, y) = create-Agreed g howmany flags c ra rb w w' p d h in
    Agreed-HasShares g (nonneg howmany) flags c ra rb w.env.fftw _ _ _ s t y
