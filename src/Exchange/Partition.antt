-- ===== src/Exchange/Partition.antt =====
-- The pencils of all processes share the domain out.
use native.Mathlib.Nat.{div-eq_of_lt-le, div-mul-le_self, lt-div-mul-add}
use underling.Common.{ℕ, ◌+◌, ◌*◌, ◌/◌, ◌≤◌, ◌<◌, ◌≡◌, ◌≢◌, ◌↔◌, sym, ◌∙◌, ℤ, nonneg, some, arith}
use underling.Machine.{World, ok}
use underling.Extents.Defs.{Four, Extents}
use underling.Grid.Defs.{Grid}
use underling.Problem.Defs.{Problem}
use underling.Problem.Create.{create}
use underling.Exchange.Defs.{part}
use underling.Exchange.Shares.{Process}
use underling.Exchange.Blocks.{Blocks}
use underling.Exchange.Pencils.{create-HasShares}

-- A share has an index exactly if its process is the one of the index's block.
share_iff :
    (d b r i start size : ℕ)
    → 1 ≤ b
    → i < d
    → size ≡ part d b r
    → (size ≢ 0 → start ≡ r * b)
    → ((start ≤ i) × (i < start + size)) ↔ (r ≡ i / b)
share_iff d b r i start size h l e s = (into, out)
  where
    into : (start ≤ i) × (i < start + size) → r ≡ i / b
    into (x, y) =
        let at : start ≡ r * b = s (λ z. omega (arith, z, x, y)) in
        let short : size ≤ b = ground (arith, e) in
        sym (div-eq_of_lt-le b (omega (arith, x, at)) (omega (arith, y, at, short)))

    out : r ≡ i / b → (start ≤ i) × (i < start + size)
    out q =
        let low : r * b ≤ i = rw q (div-mul-le_self i b) in
        let high : i < r * b + b = rw q (lt-div-mul-add h) in
        let whole : i < r * b + size = ground (arith, e, low, high, l) in
        let at : start ≡ r * b = s (λ z. omega (arith, z, low, whole)) in
        (omega (arith, low, at), omega (arith, whole, at))

-- The global indices that are in a pencil.
abbrev pub Holds : Extents → Four → Type 0
Holds e x =
    ((e.start.i0 ≤ x.i0) × (x.i0 < e.start.i0 + e.size.i0))
    × ((e.start.i1 ≤ x.i1) × (x.i1 < e.start.i1 + e.size.i1))
    × ((e.start.i2 ≤ x.i2) × (x.i2 < e.start.i2 + e.size.i2))

-- The blocks are not empty.
pub record ArePositive (c : Blocks) : Type 0 where
  pub n0_b : 1 ≤ c.n0_b
  pub n1_b : 1 ≤ c.n1_b
  pub n1_a : 1 ≤ c.n1_a
  pub n2_a : 1 ≤ c.n2_a

long_iff : (n start size i : ℕ) → i < n → size ≡ n → start ≡ 0 → (start ≤ i) × (i < start + size)
long_iff n start size i l e s = (omega arith, omega arith)

-- Where FFTW and MPI do what is documented of them, and the blocks are not empty: in a problem that is
-- created, an index of the domain is in each of the three pencils of a process exactly if the process
-- is the one of the index's blocks, along both communicators. So exactly one place of the processor
-- grid has the index, whichever pencil is asked.
pub create-partitions :
    (g : Grid) (howmany : ℤ) (flags : ℕ) (c : Blocks) (ra rb : ℕ) (w w' : World) (p : Problem)
    (x : Four)
    → Process w.env g (nonneg howmany) flags c ra rb
    → ArePositive c
    → create (some g) howmany flags w ≡ ok (some p) w'
    → (x.i0 < g.n0) × (x.i1 < g.n1) × (x.i2 < g.n2)
    → (Holds p.long_n2 x ↔ ((ra ≡ x.i1 / c.n1_a) × (rb ≡ x.i0 / c.n0_b)))
      × (Holds p.long_n1 x ↔ ((ra ≡ x.i2 / c.n2_a) × (rb ≡ x.i0 / c.n0_b)))
      × (Holds p.long_n0 x ↔ ((ra ≡ x.i2 / c.n2_a) × (rb ≡ x.i1 / c.n1_b)))
create-partitions g howmany flags c ra rb w w' p x d b h (l0, l1, l2) =
    let z = create-HasShares g howmany flags c ra rb w w' p d h in
    let n0_2 =
      share_iff g.n0 c.n0_b rb x.i0 p.long_n2.start.i0 p.long_n2.size.i0 b.n0_b l0 z.size0.0
        (λ n. (z.start0 (λ e. n (z.size0.0 ∙ sym z.size0.1 ∙ e))).0) in
    let n1_2 =
      share_iff g.n1 c.n1_a ra x.i1 p.long_n2.start.i1 p.long_n2.size.i1 b.n1_a l1 z.size1.0
        z.start1_a in
    let n0_1 =
      share_iff g.n0 c.n0_b rb x.i0 p.long_n1.start.i0 p.long_n1.size.i0 b.n0_b l0 z.size0.1
        (λ n. (z.start0 n).1) in
    let n2_1 =
      share_iff g.n2 c.n2_a ra x.i2 p.long_n1.start.i2 p.long_n1.size.i2 b.n2_a l2 z.size2.0
        (λ n. (z.start2 n).0) in
    let n1_0 =
      share_iff g.n1 c.n1_b rb x.i1 p.long_n0.start.i1 p.long_n0.size.i1 b.n1_b l1 z.size1.1
        z.start1_b in
    let n2_0 =
      share_iff g.n2 c.n2_a ra x.i2 p.long_n0.start.i2 p.long_n0.size.i2 b.n2_a l2 z.size2.1
        (λ n. (z.start2 (λ e. n (z.size2.1 ∙ sym z.size2.0 ∙ e))).1) in
    (
      (
        (λ i. (n1_2.0 i.1, n0_2.0 i.0)),
        (λ i. (n0_2.1 i.1, n1_2.1 i.0, long_iff g.n2 _ _ x.i2 l2 z.long2.0 z.long2.1)),
      ),
      (
        (λ i. (n2_1.0 i.2, n0_1.0 i.0)),
        (λ i. (n0_1.1 i.1, long_iff g.n1 _ _ x.i1 l1 z.long1.0 z.long1.1, n2_1.1 i.0)),
      ),
      (
        (λ i. (n2_0.0 i.2, n1_0.0 i.1)),
        (λ i. (long_iff g.n0 _ _ x.i0 l0 z.long0.0 z.long0.1, n1_0.1 i.1, n2_0.1 i.0)),
      ),
    )
