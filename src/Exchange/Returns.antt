-- ===== src/Exchange/Returns.antt =====
-- All four transposes of a problem, there and back.
use mathlib.Core.Path.{subst}
use native.Mathlib.Nat.{mul-le-mul_left, mod-lt, div-add-mod', div-lt_iff_lt-mul}
use underling.Common.{
  ℕ, ◌+◌, ◌*◌, ◌/◌, ◌%◌, ◌≤◌, ◌<◌, ◌≡◌, refl, sym, ap, ◌∙◌, false, inl, inr, ℤ, nonneg, some, arith,
}
use underling.Machine.{FftwConstants}
use underling.Extents.Defs.{Four, Extents}
use underling.Transpose.Defs.{Transpose}
use underling.Transpose.Inverse.{AreBits}
use underling.Exchange.Defs.{Shape, shape_of, has, part, Contents, Exchanges}
use underling.Exchange.RoundTrip.{Restored}
use underling.Exchange.Restores.{create-inverts, create-restores, same_shape}
use underling.Exchange.Shares.{agreed_b, create-Agreed}
use underling.Exchange.Blocks.{Blocks}
use underling.Exchange.Places.{address_of, part-mul}
use underling.Exchange.Partition.{ArePositive}
use underling.Exchange.AlongA
use underling.Exchange.AlongA.{row-lt, create-lands_a, source_a, landed_a}
use underling.Exchange.RowsB.{flags_b}
use underling.Exchange.Through.{
  Member, All, local, shares, member-Holds, between_a, between_a-IsLocal,
}

-- The row of a number is in its block.
in_block : (d b i : ℕ) → 1 ≤ b → i < d → i % b < part d b (i / b)
in_block d b i h l = ground (arith, div-add-mod' i b, mod-lt i h, l)

-- What is restored row by row is restored at every address of the block.
Restored-at :
    {V : Type 0} (k : FftwConstants) (s : Shape) (before behind : Contents V) (r i h : ℕ)
    → 1 ≤ s.block1
    → has s.flags k.transposed_in ≡ false
    → Restored k s before behind
    → 1 ≤ s.d1
    → i < part s.d0 s.block0 r * s.d1
    → h < s.howmany
    → behind r (i * s.howmany + h) ≡ before r (i * s.howmany + h)
Restored-at k s before behind r i h b f same one l lh =
    let j : ℕ = i % s.d1 in
    let x =
      same r (j / s.block1) (i / s.d1) (j % s.block1) h ((div-lt_iff_lt-mul one).1 l)
        (in_block s.d1 s.block1 j b (mod-lt i one)) lh in
    let e : i / s.d1 * s.d1 + (j / s.block1 * s.block1 + j % s.block1) ≡ i =
      omega (arith, div-add-mod' j s.block1, div-add-mod' i s.d1) in
    rw (f, e) at x

-- What moves along pB and back is restored at every address of the pencil long in n1.
restored_b :
    {V : Type 0} {n0 n1 n2 : ℕ} {howmany : ℤ} {flags : ℕ} {c : Blocks} {ra rb : ℕ}
    (m : Member n0 n1 n2 howmany flags c ra rb) (t u : Transpose)
    (before between behind : Contents V) (i h : ℕ)
    → 1 ≤ c.n1_b
    → AreBits m.start.env.fftw
    → m.problem.backward_b ≡ some t
    → m.problem.forward_b ≡ some u
    → Exchanges m.start.env.fftw (shape_of t) before between
    → Exchanges m.start.env.fftw (shape_of u) between behind
    → 1 ≤ m.grid.n1
    → i < m.problem.long_n1.size.i2 * m.problem.long_n1.size.i0 * m.grid.n1
    → h < nonneg howmany
    → behind rb (i * nonneg howmany + h) ≡ before rb (i * nonneg howmany + h)
restored_b {howmany = howmany} {flags} {c} {ra} {rb} m t u before between behind i h b bits is_b
      back there here one l lh =
    let k = m.start.env.fftw in
    let mm : ℕ = nonneg howmany in
    let z = shares m in
    let (s, s', have, y) =
      create-Agreed m.grid howmany flags c ra rb m.start m.end m.problem m.process m.created in
    let e : agreed_b k m.grid mm flags c ra rb ≡ shape_of t =
      sym y.is_b ∙ same_shape have.backward_b is_b in
    let same =
      create-restores m.grid howmany flags m.start m.end m.problem t u before between behind bits
        m.created (inr (is_b, back)) there here in
    let (f, f') = flags_b k flags bits in
    let rows : part (m.problem.long_n1.size.i2 * m.grid.n0) (m.problem.long_n1.size.i2 * c.n0_b) rb
        ≡ m.problem.long_n1.size.i2 * m.problem.long_n1.size.i0 =
      part-mul m.problem.long_n1.size.i2 m.grid.n0 c.n0_b rb
      ∙ ap (λ x. m.problem.long_n1.size.i2 * x) (sym z.size0.1) in
    Restored-at k (agreed_b k m.grid mm flags c ra rb) before behind rb i h b f'
      (subst (λ s. Restored k s before behind) (sym e) same) one (rw (← z.size2.0, rows) l) lh

-- Where the block of a process long in n2 comes to stand is within the rows of the pencil long in n1.
landed_within :
    (s0 n1 b ra l2 y0 y1 y2 start size : ℕ)
    → size ≡ part n1 b ra
    → start ≡ ra * b
    → y0 < s0
    → y1 < size
    → y2 < l2
    → y2 * (s0 * n1) + (s0 * start + (y0 * size + y1)) < l2 * s0 * n1
landed_within s0 n1 b ra l2 y0 y1 y2 start size e f h0 h1 h2 =
    let fits : start + size ≤ n1 = ground (arith, e, f, h1) in
    let inner : y0 * size + y1 < s0 * size = row-lt s0 size y0 y1 h0 h1 in
    let wide : s0 * (start + size) ≤ s0 * n1 = mul-le-mul_left s0 fits in
    let row : s0 * start + (y0 * size + y1) < s0 * n1 = omega (arith, inner, wide) in
    let x = row-lt l2 (s0 * n1) y2 (s0 * start + (y0 * size + y1)) h2 row in omega (arith, x)

-- What came along pA is restored by the two transposes along pB.
stays_along_b :
    {V : Type 0} {n0 n1 n2 : ℕ} {howmany : ℤ} {flags : ℕ} {c : Blocks} {ra ra' rb : ℕ}
    (m2 : Member n0 n1 n2 howmany flags c ra rb) (m1 : Member n0 n1 n2 howmany flags c ra' rb)
    (y : Four) (t u : Transpose) (before between behind : Contents V)
    → 1 ≤ c.n1_b
    → AreBits m1.start.env.fftw
    → (m1.problem.backward_b ≡ some t) × (m1.problem.forward_b ≡ some u)
    → Exchanges m1.start.env.fftw (shape_of t) before between
    → Exchanges m1.start.env.fftw (shape_of u) between behind
    → AlongA.IsLocal m2.problem.long_n2 m1.problem.long_n1 y
    → behind rb (landed_a m2.problem.long_n2 m2.grid.n1 y)
      ≡ before rb (landed_a m2.problem.long_n2 m2.grid.n1 y)
stays_along_b {howmany = howmany} {flags} {c} {ra} {ra'} {rb} m2 m1 y t u before between behind b
      bits (is_b, is_back) there back l =
    let e2 : Extents = m2.problem.long_n2 in
    let e1 : Extents = m1.problem.long_n1 in
    let z2 = shares m2 in
    let z1 = shares m1 in
    let (f0, f1, f2) = z2.fields in
    let n1 : m2.grid.n1 ≡ m1.grid.n1 = m2.size1 ∙ sym m1.size1 in
    let planes : e2.size.i0 ≡ e1.size.i0 =
      z2.size0.0 ∙ ap (λ n. part n c.n0_b rb) (m2.size0 ∙ sym m1.size0) ∙ sym z1.size0.1 in
    let i : ℕ =
      y.i2 * (e2.size.i0 * m2.grid.n1) + (e2.size.i0 * e2.start.i1 + (y.i0 * e2.size.i1 + y.i1)) in
    let within =
      landed_within e2.size.i0 m2.grid.n1 c.n1_a ra e1.size.i2 y.i0 y.i1 y.i2 e2.start.i1 e2.size.i1
        z2.size1.0 (z2.start1_a (λ e. omega (arith, e, l.in1))) l.in0 l.in1 l.in2 in
    let within' : i < e1.size.i2 * e1.size.i0 * m1.grid.n1 =
      subst (λ n. i < e1.size.i2 * n * m1.grid.n1) planes
        (subst (λ n. i < e1.size.i2 * e2.size.i0 * n) n1 within) in
    let same =
      restored_b m1 t u before between behind i y.i3 b bits is_b is_back there back
        (ground (arith, z2.size1.0, l.in1, n1)) within' (omega (arith, l.in3, f2)) in
    rw (← f2) at same

-- Where FFTW and MPI do what is documented of them, its two flags are bits of their own, and the blocks
-- are not empty: the transposes from long in n2 to long in n1, on to long in n0, back to long in n1 and
-- back to long in n2 bring the element at every index of the domain back to its address in the pencil
-- long in n2 of the process that has it there.
pub create-returns :
    {n0 n1 n2 : ℕ} {howmany : ℤ} {flags : ℕ} {c : Blocks} (x : Four)
    (m2 : Member n0 n1 n2 howmany flags c (x.i1 / c.n1_a) (x.i0 / c.n0_b))
    (m1 : Member n0 n1 n2 howmany flags c (x.i2 / c.n2_a) (x.i0 / c.n0_b)) {V : Type 0}
    (v0 v1 v2 v3 v4 : All V) (t u t' u' : Transpose)
    → ArePositive c
    → (x.i0 < n0) × (x.i1 < n1) × (x.i2 < n2)
    → x.i3 < nonneg howmany
    → AreBits m2.start.env.fftw
    → AreBits m1.start.env.fftw
    → (m2.problem.backward_a ≡ some t) × (m2.problem.forward_a ≡ some u)
    → (m1.problem.backward_b ≡ some t') × (m1.problem.forward_b ≡ some u')
    → Exchanges m2.start.env.fftw
        (shape_of t)
        (λ r. v0 r (x.i0 / c.n0_b))
        (λ r. v1 r (x.i0 / c.n0_b))
    → Exchanges m1.start.env.fftw (shape_of t') (v1 (x.i2 / c.n2_a)) (v2 (x.i2 / c.n2_a))
    → Exchanges m1.start.env.fftw (shape_of u') (v2 (x.i2 / c.n2_a)) (v3 (x.i2 / c.n2_a))
    → Exchanges m2.start.env.fftw
        (shape_of u)
        (λ r. v3 r (x.i0 / c.n0_b))
        (λ r. v4 r (x.i0 / c.n0_b))
    → v4
        (x.i1 / c.n1_a)
        (x.i0 / c.n0_b)
        (address_of m2.problem.long_n2 (local m2.problem.long_n2 x))
      ≡ v0
          (x.i1 / c.n1_a)
          (x.i0 / c.n0_b)
          (address_of m2.problem.long_n2 (local m2.problem.long_n2 x))
create-returns {howmany = howmany} {flags} {c} x m2 m1 v0 v1 v2 v3 v4 t u t' u' b l h bits bits'
      is_a is_b go on back home =
    let ra : ℕ = x.i1 / c.n1_a in
    let ra' : ℕ = x.i2 / c.n2_a in
    let rb : ℕ = x.i0 / c.n0_b in
    let e2 : Extents = m2.problem.long_n2 in
    let e1 : Extents = m1.problem.long_n1 in
    let (in2, h1, h2) = member-Holds m2 x b l in
    let (h3, in1, h4) = member-Holds m1 x b l in
    let (local_in, source) =
      between_a-IsLocal m2 e1 x (in2.1 (refl, refl)) (in1.1 (refl, refl)) h in
    let z2 = shares m2 in
    let z1 = shares m1 in
    let at : ℕ = landed_a e2 m2.grid.n1 (between_a e2 e1 x) in
    let lands =
      λ (before behind : All _)
          (moved : Exchanges m2.start.env.fftw (shape_of t) (λ r. before r rb) (λ r. behind r rb)).
        (create-lands_a m2.grid m1.grid howmany flags c m2.start m2.end m1.start m1.end m2.problem
          m1.problem (m2.size0 ∙ sym m1.size0) (m2.size1 ∙ sym m1.size1) (m2.size2 ∙ sym m1.size2)
          m2.created m1.created ra ra' rb m2.process m1.process t (λ r. before r rb)
          (λ r. behind r rb) bits is_a.0 moved (between_a e2 e1 x) local_in).0 in
    let out : v1 ra' rb at ≡ v0 ra rb (address_of e2 (source_a e1 (between_a e2 e1 x))) =
      lands v0 v1 go in
    let in_ : v3 ra' rb at ≡ v4 ra rb (address_of e2 (source_a e1 (between_a e2 e1 x))) =
      lands v4 v3 (
        create-inverts m2.grid howmany flags m2.start m2.end m2.problem t u (λ r. v3 r rb)
          (λ r. v4 r rb) bits m2.created (inl is_a) home) in
    let stays : v3 ra' rb at ≡ v1 ra' rb at =
      stays_along_b m2 m1 (between_a e2 e1 x) t' u' (v1 ra') (v2 ra') (v3 ra') b.n1_b bits' is_b on
        back local_in in
    sym (ap (λ y. v4 ra rb (address_of e2 y)) source)
    ∙ sym in_
    ∙ stays
    ∙ out
    ∙ ap (λ y. v0 ra rb (address_of e2 y)) source
