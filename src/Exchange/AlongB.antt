-- ===== src/Exchange/AlongB.antt =====
-- From long in n1 to long in n0, along pB_comm.
use mathlib.Core.Path.{subst}
use underling.Common.{
  ℕ, ◌+◌, ◌*◌, ◌<◌, ◌≡◌, ◌↔◌, ◌⊎◌, refl, sym, ap, ◌∙◌, false, Bool-cases, inl, inr, ℤ, nonneg, some,
  if◌then◌else◌, arith,
}
use underling.Machine.{World, ok}
use underling.Extents.Defs.{Four, four, Extents}
use underling.Grid.Defs.{Grid}
use underling.Transpose.Defs.{Transpose}
use underling.Transpose.Inverse.{AreBits}
use underling.Problem.Defs.{Problem, has_flag, transposed_long_n0}
use underling.Problem.Create.{create}
use underling.Exchange.Defs.{shape_of, part, place, Contents, Exchanges}
use underling.Exchange.Shares.{Process, agreed_b, create-Agreed}
use underling.Exchange.Blocks.{Blocks}
use underling.Exchange.Restores.{same_shape}
use underling.Exchange.Pencils.{HasShares, create-HasShares}
use underling.Exchange.Places.{address_of, place-injective}
use underling.Exchange.RowsB.{moves_b}

-- The row of the matrix that an element of a pencil long in n1 belongs to: n2 and n0 are counted
-- process by process.
abbrev pub row_b : Extents → Four → ℕ
row_b e x = e.size.i2 * e.start.i0 + (x.i2 * e.size.i0 + x.i0)

-- Where the local indices `x` of that pencil come to stand in the process that has n1 at `x.i1` of its
-- own.
abbrev pub landed_b : (flags : ℕ) (e1 e0 : Extents) (n0 : ℕ) → Four → ℕ
landed_b flags e1 e0 n0 x =
    place (has_flag flags transposed_long_n0) e0.size.i1 (e1.size.i2 * n0) e1.size.i3 x.i1
      (row_b e1 x) x.i3

-- The same element with the indices of the pencil that is long in n0.
abbrev pub described_b : Extents → Four → Four
described_b e x = four (e.start.i0 + x.i0) x.i1 x.i2 x.i3

-- And with those of the pencil that it comes from.
abbrev pub source_b : Extents → Four → Four
source_b e x = four x.i0 (e.start.i1 + x.i1) x.i2 x.i3

-- Indices that are local to the process before the transpose, but for n1, which is local behind it.
pub record IsLocal (e1 e0 : Extents) (x : Four) : Type 0 where
  pub in0 : x.i0 < e1.size.i0
  pub in1 : x.i1 < e0.size.i1
  pub in2 : x.i2 < e1.size.i2
  pub in3 : x.i3 < e1.size.i3

-- A problem created in process `rb` and one in process `rb'` of one pB_comm.
module _ (g g' : Grid) (howmany : ℤ) (flags : ℕ) (c : Blocks) (w w1 u u1 : World) (p q : Problem)
    (n0 : g.n0 ≡ g'.n0) (n1 : g.n1 ≡ g'.n1) (n2 : g.n2 ≡ g'.n2)
    (one : create (some g) howmany flags w ≡ ok (some p) w1)
    (other : create (some g') howmany flags u ≡ ok (some q) u1) (ra rb rb' : ℕ)
    (d : Process w.env g (nonneg howmany) flags c ra rb)
    (d' : Process u.env g' (nonneg howmany) flags c ra rb') where
  abbrev m : ℕ
  m = nonneg howmany

  z : HasShares g m flags c ra rb p.long_n0 p.long_n1 p.long_n2
  z = create-HasShares g howmany flags c ra rb w w1 p d one

  z' : HasShares g' m flags c ra rb' q.long_n0 q.long_n1 q.long_n2
  z' = create-HasShares g' howmany flags c ra rb' u u1 q d' other

  module _ {V : Type 0} (t : Transpose) (before behind : Contents V) (bits : AreBits w.env.fftw)
      (is_b : p.backward_b ≡ some t) (moved : Exchanges w.env.fftw (shape_of t) before behind) where
    moved_to :
        (x : Four)
        → IsLocal p.long_n1 q.long_n0 x
        → behind rb' (landed_b flags p.long_n1 q.long_n0 g.n0 x)
          ≡ before rb (address_of p.long_n1 (source_b q.long_n0 x))
    moved_to x l =
        let (a, b, have, y) = create-Agreed g howmany flags c ra rb w w1 p d one in
        let (f0, f1, f2) = z.fields in
        let s : agreed_b w.env.fftw g m flags c ra rb ≡ shape_of t =
          sym y.is_b ∙ same_shape have.backward_b is_b in
        let start0 = (z.start0 (λ e. omega (arith, e, l.in0))).1 in
        let start1 = z'.start1_b (λ e. omega (arith, e, l.in1)) in
        let size1 : q.long_n0.size.i1 ≡ part g.n1 c.n1_b rb' = rw n1 z'.size1.1 in
        let moves =
          moves_b w.env.fftw g m flags c rb rb' ra bits
            (subst (λ s. Exchanges w.env.fftw s before behind) (sym s) moved) x.i0 x.i1 x.i2 x.i3
            (omega (arith, l.in0, z.size0)) (omega (arith, l.in1, size1))
            (omega (arith, l.in2, z.size2)) (omega (arith, l.in3, f1)) in
        ap (behind rb') (landed f1 start0 size1)
        ∙ moves
        ∙ ap (before rb) (rw (z.at1 (source_b q.long_n0 x), z.size0.1, start1) refl)
      where
        landed :
            p.long_n1.size.i3 ≡ m
            → p.long_n1.start.i0 ≡ rb * c.n0_b
            → q.long_n0.size.i1 ≡ part g.n1 c.n1_b rb'
            → landed_b flags p.long_n1 q.long_n0 g.n0 x
              ≡ place
                  (has_flag flags transposed_long_n0)
                  (part g.n1 c.n1_b rb')
                  (part g.n2 c.n2_a ra * g.n0)
                  m
                  x.i1
                  (rb * (part g.n2 c.n2_a ra * c.n0_b) + (x.i2 * part g.n0 c.n0_b rb + x.i0))
                  x.i3
        landed f1 start0 size1 =
            let row : row_b p.long_n1 x
                ≡ rb * (part g.n2 c.n2_a ra * c.n0_b) + (x.i2 * part g.n0 c.n0_b rb + x.i0) =
              rw (z.size2.0, z.size0.1, start0) (omega arith) in
            rw (row, f1, size1, z.size2.0) refl

  -- The two ways to count: what FFTW is given, and what the extents of the pencil long in n0 say.
  abbrev pub counted : Four → ℕ
  counted x =
      if has_flag flags transposed_long_n0
      then row_b p.long_n1 x * q.long_n0.size.i1 + x.i1
      else x.i1 * (p.long_n1.size.i2 * g.n0) + row_b p.long_n1 x

  abbrev pub told : Four → ℕ
  told x =
      if has_flag flags transposed_long_n0
      then ((p.long_n1.start.i0 + x.i0) * q.long_n0.size.i1 + x.i1) * p.long_n1.size.i2 + x.i2
      else (x.i1 * p.long_n1.size.i2 + x.i2) * g.n0 + (p.long_n1.start.i0 + x.i0)

  landed_at : (x : Four) → landed_b flags p.long_n1 q.long_n0 g.n0 x ≡ counted x * m + x.i3
  landed_at x =
      let (f0, f1, f2) = z.fields in
      elim (Bool-cases (has_flag flags transposed_long_n0)) [
        | inl e ↦ rw (e, f1) refl
        | inr e ↦ rw (e, f1) refl
      ]

  described_at : (x : Four) → address_of q.long_n0 (described_b p.long_n1 x) ≡ told x * m + x.i3
  described_at x =
      let e : part g'.n2 c.n2_a ra ≡ p.long_n1.size.i2 =
        ap (λ n. part n c.n2_a ra) (sym n2) ∙ sym z.size2.0 in
      z'.at0 (described_b p.long_n1 x) ∙ elim (Bool-cases (has_flag flags transposed_long_n0)) [
        | inl f ↦ rw (f, z'.size2.1, e) refl
        | inr f ↦ rw (f, z'.size2.1, e, ← n0) refl
      ]

  landed-described_iff :
      (x : Four)
      → IsLocal p.long_n1 q.long_n0 x
      → (landed_b flags p.long_n1 q.long_n0 g.n0 x ≡ address_of q.long_n0 (described_b p.long_n1 x))
        ↔ (counted x ≡ told x)
  landed-described_iff x l =
      let (f0, f1, f2) = z.fields in
      (
        (λ e.
            place-injective _ _ m x.i3 (omega (arith, l.in3, f1))
              (sym (landed_at x) ∙ e ∙ described_at x)),
        (λ e. landed_at x ∙ ap (λ k. k * m + x.i3) e ∙ sym (described_at x)),
      )

  -- One plane of n2 only, or all of n0 in one process and not transposed.
  counts_agree :
      (x : Four)
      → IsLocal p.long_n1 q.long_n0 x
      → (p.long_n1.size.i2 ≡ 1)
        ⊎ ((p.long_n1.size.i0 ≡ g.n0) × (has_flag flags transposed_long_n0 ≡ false))
      → counted x ≡ told x
  counts_agree x l (inl e) =
      let e2 : x.i2 ≡ 0 = omega (arith, l.in2, e) in
      elim (Bool-cases (has_flag flags transposed_long_n0)) [
        | inl f ↦ rw (f, e, e2) (omega arith)
        | inr f ↦ rw (f, e, e2) (omega arith)
      ]
  counts_agree x l (inr (e, f)) =
      let s : p.long_n1.start.i0 ≡ rb * c.n0_b = (z.start0 (λ f. omega (arith, f, l.in0))).1 in
      let whole : part g.n0 c.n0_b rb ≡ g.n0 = sym z.size0.1 ∙ e in
      let none_before : p.long_n1.start.i0 ≡ 0 = ground (arith, s, whole, l.in0, e) in
      rw (f, none_before, e) (omega arith)

  module _ {V : Type 0} (t : Transpose) (before behind : Contents V) (bits : AreBits w.env.fftw)
      (is_b : p.backward_b ≡ some t) (moved : Exchanges w.env.fftw (shape_of t) before behind) where
    -- Where FFTW and MPI do what is documented of them, and its two flags are bits of their
    -- own: the transpose from long in n1 to long in n0 moves every element of process `rb` to
    -- the process that has it in n1, where n2 and n0 are counted process by process; this is
    -- where the extents have the element exactly if the two ways to count agree on it.
    pub create-lands_b :
        (x : Four)
        → IsLocal p.long_n1 q.long_n0 x
        → (behind rb' (landed_b flags p.long_n1 q.long_n0 g.n0 x)
            ≡ before rb (address_of p.long_n1 (source_b q.long_n0 x)))
          × ((landed_b flags p.long_n1 q.long_n0 g.n0 x
                ≡ address_of q.long_n0 (described_b p.long_n1 x))
              ↔ (counted x ≡ told x))
    create-lands_b x l = (moved_to t before behind bits is_b moved x l, landed-described_iff x l)

    -- Where FFTW and MPI do what is documented of them, its two flags are bits of their own,
    -- and the process has one plane of n2 only, or all of n0 with the pencil long in n0 not
    -- transposed: the transpose from long in n1 to long in n0 brings every element to the
    -- address that the extents of that pencil give it, in the process that has it in n1.
    pub create-delivers_b :
        (x : Four)
        → IsLocal p.long_n1 q.long_n0 x
        → (p.long_n1.size.i2 ≡ 1)
          ⊎ ((p.long_n1.size.i0 ≡ g.n0) × (has_flag flags transposed_long_n0 ≡ false))
        → behind rb' (address_of q.long_n0 (described_b p.long_n1 x))
          ≡ before rb (address_of p.long_n1 (source_b q.long_n0 x))
    create-delivers_b x l simple =
        ap (behind rb') (sym ((landed-described_iff x l).1 (counts_agree x l simple)))
        ∙ moved_to t before behind bits is_b moved x l
