-- ===== src/Exchange/Through.antt =====
-- From long in n2 through long in n1 to long in n0: both transposes, one after the other.
use underling.Common.{
  ℕ, ◌-◌, ◌/◌, ◌<◌, ◌≡◌, ◌↔◌, ◌⊎◌, refl, sym, ap, ◌∙◌, false, ℤ, nonneg, some, arith,
}
use underling.Machine.{World, ok}
use underling.Extents.Defs.{Four, four, Extents}
use underling.Grid.Defs.{Grid}
use underling.Transpose.Defs.{Transpose}
use underling.Transpose.Inverse.{AreBits}
use underling.Problem.Defs.{Problem, has_flag, transposed_long_n0}
use underling.Problem.Create.{create}
use underling.Exchange.Defs.{shape_of, Contents, Exchanges}
use underling.Exchange.Shares.{Process}
use underling.Exchange.Blocks.{Blocks}
use underling.Exchange.Pencils.{HasShares, create-HasShares}
use underling.Exchange.Places.{address_of}
use underling.Exchange.Partition.{Holds, ArePositive, create-partitions}
use underling.Exchange.AlongA.{create-delivers_a, described_a, source_a}
use underling.Exchange.AlongB.{create-delivers_b, described_b, source_b}
use underling.Exchange.AlongA

-- Process `ra` along pA and `rb` along pB, with the problem that it has created.
pub record Member (n0 n1 n2 : ℕ) (howmany : ℤ) (flags : ℕ) (c : Blocks) (ra rb : ℕ) : Type 0 where
  pub grid : Grid
  pub start : World
  pub end : World
  pub problem : Problem
  pub size0 : grid.n0 ≡ n0
  pub size1 : grid.n1 ≡ n1
  pub size2 : grid.n2 ≡ n2
  pub process : Process start.env grid (nonneg howmany) flags c ra rb
  pub created : create (some grid) howmany flags start ≡ ok (some problem) end

-- The local indices of a global index in a pencil.
abbrev pub local : Extents → Four → Four
local e x = four (x.i0 - e.start.i0) (x.i1 - e.start.i1) (x.i2 - e.start.i2) x.i3

-- The contents of the buffers of all processes, by their numbers along pA and along pB.
abbrev pub All : Type 0 → Type 0
All V = ℕ → Contents V

pub four_cong : {a b c a' b' c' d : ℕ} → a ≡ a' → b ≡ b' → c ≡ c' → four a b c d ≡ four a' b' c' d
four_cong p q r = rw (p, q, r) refl

pub shares :
    {n0 n1 n2 : ℕ} {howmany : ℤ} {flags : ℕ} {c : Blocks} {ra rb : ℕ}
    (m : Member n0 n1 n2 howmany flags c ra rb)
    → HasShares m.grid
        (nonneg howmany)
        flags
        c
        ra
        rb
        m.problem.long_n0
        m.problem.long_n1
        m.problem.long_n2
shares {howmany = howmany} {flags} {c} {ra} {rb} m =
    create-HasShares m.grid howmany flags c ra rb m.start m.end m.problem m.process m.created

-- The local indices of an element in the pencil long in n2 of one process, but for n2 those in the
-- pencil long in n1 of the process that has it there.
abbrev pub between_a : (e2 e1 : Extents) → Four → Four
between_a e2 e1 x = four (x.i0 - e2.start.i0) (x.i1 - e2.start.i1) (x.i2 - e1.start.i2) x.i3

pub between_a-IsLocal :
    {n0 n1 n2 : ℕ} {howmany : ℤ} {flags : ℕ} {c : Blocks} {ra rb : ℕ}
    (m : Member n0 n1 n2 howmany flags c ra rb) (e1 : Extents) (x : Four)
    → Holds m.problem.long_n2 x
    → Holds e1 x
    → x.i3 < nonneg howmany
    → AlongA.IsLocal m.problem.long_n2 e1 (between_a m.problem.long_n2 e1 x)
      × (source_a e1 (between_a m.problem.long_n2 e1 x) ≡ local m.problem.long_n2 x)
between_a-IsLocal m e1 x ((a0, b0), (a1, b1), (a2, b2)) ((c0, d0), (c1, d1), (c2, d2)) l =
    let z = shares m in
    (
      record {
        in0 = omega (arith, a0, b0);
        in1 = omega (arith, a1, b1);
        in2 = omega (arith, c2, d2);
        in3 = omega (arith, l, z.fields);
      },
      four_cong refl refl (omega (arith, c2, z.long2.1)),
    )

module _ {n0 n1 n2 : ℕ} {howmany : ℤ} {flags : ℕ} {c : Blocks} {ra ra' rb rb' : ℕ}
    (m2 : Member n0 n1 n2 howmany flags c ra rb) (m1 : Member n0 n1 n2 howmany flags c ra' rb)
    (m0 : Member n0 n1 n2 howmany flags c ra' rb') {V : Type 0} (before middle behind : All V)
    (x : Four) where
  abbrev e2 : Extents
  e2 = m2.problem.long_n2

  abbrev e1 : Extents
  e1 = m1.problem.long_n1

  abbrev e0 : Extents
  e0 = m0.problem.long_n0

  through_a :
      (t : Transpose)
      → AreBits m2.start.env.fftw
      → m2.problem.backward_a ≡ some t
      → Exchanges m2.start.env.fftw (shape_of t) (λ r. before r rb) (λ r. middle r rb)
      → Holds e2 x
      → Holds e1 x
      → x.i3 < nonneg howmany
      → (e2.size.i0 ≡ 1) ⊎ (e2.size.i1 ≡ m2.grid.n1)
      → middle ra' rb (address_of e1 (local e1 x)) ≡ before ra rb (address_of e2 (local e2 x))
  through_a t bits is_a moved h2 h1 l simple =
      let z2 = shares m2 in
      let z1 = shares m1 in
      let ((a0, b0), (a1, b1), (a2, b2)) = h2 in
      let ((c0, d0), (c1, d1), (c2, d2)) = h1 in
      let y : Four = between_a e2 e1 x in
      let (here, source) = between_a-IsLocal m2 e1 x h2 h1 l in
      let along : e2.size.i0 ≡ m2.problem.long_n1.size.i0 = z2.size0.0 ∙ sym z2.size0.1 in
      let start2 = (z2.start0 (λ e. omega (arith, e, along, a0, b0))).0 in
      let start1 = (z1.start0 (λ e. omega (arith, e, c0, d0))).1 in
      let there : described_a e2 y ≡ local e1 x =
        four_cong (omega (arith, start2, start1)) (omega (arith, a1, z1.long1.1)) refl in
      ap (λ y. middle ra' rb (address_of e1 y)) (sym there)
      ∙ create-delivers_a m2.grid m1.grid howmany flags c m2.start m2.end m1.start m1.end m2.problem
          m1.problem (m2.size0 ∙ sym m1.size0) (m2.size1 ∙ sym m1.size1) (m2.size2 ∙ sym m1.size2)
          m2.created m1.created ra ra' rb m2.process m1.process t (λ r. before r rb)
          (λ r. middle r rb) bits is_a moved y here simple
      ∙ ap (λ y. before ra rb (address_of e2 y)) source

  through_b :
      (t : Transpose)
      → AreBits m1.start.env.fftw
      → m1.problem.backward_b ≡ some t
      → Exchanges m1.start.env.fftw (shape_of t) (middle ra') (behind ra')
      → Holds e1 x
      → Holds e0 x
      → x.i3 < nonneg howmany
      → (e1.size.i2 ≡ 1) ⊎ ((e1.size.i0 ≡ m1.grid.n0) × (has_flag flags transposed_long_n0 ≡ false))
      → behind ra' rb' (address_of e0 (local e0 x)) ≡ middle ra' rb (address_of e1 (local e1 x))
  through_b t bits is_b moved h1 h0 l simple =
      let z1 = shares m1 in
      let z0 = shares m0 in
      let ((a0, b0), (a1, b1), (a2, b2)) = h1 in
      let ((c0, d0), (c1, d1), (c2, d2)) = h0 in
      let y : Four = four (x.i0 - e1.start.i0) (x.i1 - e0.start.i1) (x.i2 - e1.start.i2) x.i3 in
      let along : e0.size.i2 ≡ m0.problem.long_n1.size.i2 = z0.size2.1 ∙ sym z0.size2.0 in
      let start1 = (z1.start2 (λ e. omega (arith, e, a2, b2))).0 in
      let start0 = (z0.start2 (λ e. omega (arith, e, along, c2, d2))).1 in
      let there : described_b e1 y ≡ local e0 x =
        four_cong (omega (arith, a0, z0.long0.1)) refl (omega (arith, start1, start0)) in
      let here : source_b e0 y ≡ local e1 x = four_cong refl (omega (arith, c1, z1.long1.1)) refl in
      ap (λ y. behind ra' rb' (address_of e0 y)) (sym there)
      ∙ create-delivers_b m1.grid m0.grid howmany flags c m1.start m1.end m0.start m0.end m1.problem
          m0.problem (m1.size0 ∙ sym m0.size0) (m1.size1 ∙ sym m0.size1) (m1.size2 ∙ sym m0.size2)
          m1.created m0.created ra' rb rb' m1.process m0.process t (middle ra') (behind ra') bits
          is_b moved y
          (record {
            in0 = omega (arith, a0, b0);
            in1 = omega (arith, c1, d1);
            in2 = omega (arith, a2, b2);
            in3 = omega (arith, l, z1.fields);
          })
          simple
      ∙ ap (λ y. middle ra' rb (address_of e1 y)) here

-- The pencils of a member hold what the blocks give its process.
pub member-Holds :
    {n0 n1 n2 : ℕ} {howmany : ℤ} {flags : ℕ} {c : Blocks} {ra rb : ℕ}
    (m : Member n0 n1 n2 howmany flags c ra rb) (x : Four)
    → ArePositive c
    → (x.i0 < n0) × (x.i1 < n1) × (x.i2 < n2)
    → (Holds m.problem.long_n2 x ↔ ((ra ≡ x.i1 / c.n1_a) × (rb ≡ x.i0 / c.n0_b)))
      × (Holds m.problem.long_n1 x ↔ ((ra ≡ x.i2 / c.n2_a) × (rb ≡ x.i0 / c.n0_b)))
      × (Holds m.problem.long_n0 x ↔ ((ra ≡ x.i2 / c.n2_a) × (rb ≡ x.i1 / c.n1_b)))
member-Holds {howmany = howmany} {flags} {c} {ra} {rb} m x b (l0, l1, l2) =
    create-partitions m.grid howmany flags c ra rb m.start m.end m.problem x m.process b m.created
      (omega (arith, l0, m.size0), omega (arith, l1, m.size1), omega (arith, l2, m.size2))

-- Where FFTW and MPI do what is documented of them, its two flags are bits of their own, and the blocks
-- are not empty: the transposes from long in n2 to long in n1 and from there to long in n0, one after
-- the other, bring the element at an index of the domain from the address that the extents of the
-- pencil long in n2 give it, in the process of the index's blocks, to the address that those of the
-- pencil long in n0 give it in its process. On the way, the first process has one plane of n0 only, or
-- all of n1, and the second one plane of n2 only, or all of n0 with the pencil long in n0 not
-- transposed.
pub create-carries :
    {n0 n1 n2 : ℕ} {howmany : ℤ} {flags : ℕ} {c : Blocks} (x : Four)
    (m2 : Member n0 n1 n2 howmany flags c (x.i1 / c.n1_a) (x.i0 / c.n0_b))
    (m1 : Member n0 n1 n2 howmany flags c (x.i2 / c.n2_a) (x.i0 / c.n0_b))
    (m0 : Member n0 n1 n2 howmany flags c (x.i2 / c.n2_a) (x.i1 / c.n1_b)) {V : Type 0}
    (before middle behind : All V) (t t' : Transpose)
    → ArePositive c
    → (x.i0 < n0) × (x.i1 < n1) × (x.i2 < n2)
    → x.i3 < nonneg howmany
    → AreBits m2.start.env.fftw
    → AreBits m1.start.env.fftw
    → m2.problem.backward_a ≡ some t
    → m1.problem.backward_b ≡ some t'
    → Exchanges m2.start.env.fftw
        (shape_of t)
        (λ r. before r (x.i0 / c.n0_b))
        (λ r. middle r (x.i0 / c.n0_b))
    → Exchanges m1.start.env.fftw (shape_of t') (middle (x.i2 / c.n2_a)) (behind (x.i2 / c.n2_a))
    → (m2.problem.long_n2.size.i0 ≡ 1) ⊎ (m2.problem.long_n2.size.i1 ≡ m2.grid.n1)
    → (m1.problem.long_n1.size.i2 ≡ 1)
      ⊎ ((m1.problem.long_n1.size.i0 ≡ m1.grid.n0) × (has_flag flags transposed_long_n0 ≡ false))
    → behind
        (x.i2 / c.n2_a)
        (x.i1 / c.n1_b)
        (address_of m0.problem.long_n0 (local m0.problem.long_n0 x))
      ≡ before
          (x.i1 / c.n1_a)
          (x.i0 / c.n0_b)
          (address_of m2.problem.long_n2 (local m2.problem.long_n2 x))
create-carries x m2 m1 m0 before middle behind t t' b l h bits bits' is_a is_b moved moved' s s' =
    let (in2, u, v) = member-Holds m2 x b l in
    let (p, in1, q) = member-Holds m1 x b l in
    let (y, z, in0) = member-Holds m0 x b l in
    through_b m2 m1 m0 before middle behind x t' bits' is_b moved' (in1.1 (refl, refl))
      (in0.1 (refl, refl)) h s'
    ∙ through_a m2 m1 m0 before middle behind x t bits is_a moved (in2.1 (refl, refl))
        (in1.1 (refl, refl)) h s
