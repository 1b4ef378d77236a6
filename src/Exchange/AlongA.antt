-- ===== src/Exchange/AlongA.antt =====
-- From long in n2 to long in n1, along pA_comm.
use mathlib.Core.Path.{subst}
use underling.Common.{
  ℕ, ◌+◌, ◌*◌, ◌<◌, ◌≡◌, ◌↔◌, ◌⊎◌, refl, sym, ap, ◌∙◌, false, Bool-cases, inl, inr, ℤ, nonneg, some,
  if◌then◌else◌, arith,
}
use underling.Machine.{World, FftwConstants, ok}
use underling.Extents.Defs.{Four, four, Extents}
use underling.Grid.Defs.{Grid}
use underling.Transpose.Defs.{Transpose}
use underling.Transpose.Inverse.{AreBits, zero-bit_and}
use underling.Problem.Defs.{Problem, has_flag, transposed_long_n2}
use underling.Problem.Create.{create}
use underling.Exchange.Defs.{shape_of, has, part, place, Contents, Exchanges}
use underling.Exchange.Shares.{Process, agreed_a, create-Agreed, l0}
use underling.Exchange.Blocks.{Blocks}
use underling.Exchange.Restores.{same_shape}
use underling.Exchange.Pencils.{HasShares, create-HasShares}
use underling.Exchange.Places.{address_of, part-mul, place-injective}

-- Whether FFTW is told that the blocks come in, or go out, transposed.
flags_a :
    (k : FftwConstants) (flags : ℕ)
    → AreBits k
    → let f : ℕ = if has_flag flags transposed_long_n2 then k.transposed_in else 0 in
      (has f k.transposed_in ≡ has_flag flags transposed_long_n2) × (has f k.transposed_out ≡ false)
flags_a k flags b = elim (Bool-cases (has_flag flags transposed_long_n2)) [
  | inl e ↦ rw e (ground (arith, b.in_in, b.in_out))
  | inr e ↦ rw e (ground (arith, zero-bit_and k.transposed_in, zero-bit_and k.transposed_out))
]

-- A local row of the matrix.
pub row-lt : (l m x y : ℕ) → x < l → y < m → x * m + y < l * m
row-lt l m x y h h' = grind arith

module _ {V : Type 0} (k : FftwConstants) (g : Grid) (m flags : ℕ) (c : Blocks) (r r' rb : ℕ)
    (bits : AreBits k) {before behind : Contents V}
    (moved : Exchanges k (agreed_a k g m flags c r rb) before behind) where
  abbrev rows : ℕ
  rows = l0 k g m flags c r rb

  abbrev wide : ℕ
  wide = part g.n1 c.n1_a r

  moves_a :
      (i0 i1 i2 h : ℕ)
      → i0 < rows
      → i1 < wide
      → i2 < part g.n2 c.n2_a r'
      → h < m
      → behind r' ((i2 * (rows * g.n1) + (r * (rows * c.n1_a) + (i0 * wide + i1))) * m + h)
        ≡ before r (
            place
              (has_flag flags transposed_long_n2)
              (rows * wide)
              g.n2
              m
              (i0 * wide + i1)
              (r' * c.n2_a + i2)
              h)
  moves_a i0 i1 i2 h b0 b1 b2 bh =
      let e : part (rows * g.n1) (rows * c.n1_a) r ≡ rows * wide = part-mul rows g.n1 c.n1_a r in
      let (f, f') = flags_a k flags bits in
      let x = moved.moves r r' (i0 * wide + i1) i2 h (rw e (row-lt rows wide i0 i1 b0 b1)) b2 bh in
      rw (f, f', e) at x

-- Where the local indices `x` of a pencil long in n2 come to stand, in the process that has n2 at `x.i2`
-- of its own: n0 and n1 are counted process by process.
abbrev pub landed_a : Extents → (n1 : ℕ) → Four → ℕ
landed_a e n1 x =
    (x.i2 * (e.size.i0 * n1) + (e.size.i0 * e.start.i1 + (x.i0 * e.size.i1 + x.i1))) * e.size.i3
    + x.i3

-- The same element with the indices of the pencil that is long in n1.
abbrev pub described_a : Extents → Four → Four
described_a e x = four x.i0 (e.start.i1 + x.i1) x.i2 x.i3

-- And with those of the pencil that it comes from.
abbrev pub source_a : Extents → Four → Four
source_a e x = four x.i0 x.i1 (e.start.i2 + x.i2) x.i3

-- Indices that are local to the process before the transpose, but for n2, which is local behind it.
pub record IsLocal (e2 e1 : Extents) (x : Four) : Type 0 where
  pub in0 : x.i0 < e2.size.i0
  pub in1 : x.i1 < e2.size.i1
  pub in2 : x.i2 < e1.size.i2
  pub in3 : x.i3 < e2.size.i3

-- A problem created in process `ra` and one in process `ra'` of one pA_comm.
module _ (g g' : Grid) (howmany : ℤ) (flags : ℕ) (c : Blocks) (w w1 u u1 : World) (p q : Problem)
    (n0 : g.n0 ≡ g'.n0) (n1 : g.n1 ≡ g'.n1) (n2 : g.n2 ≡ g'.n2)
    (one : create (some g) howmany flags w ≡ ok (some p) w1)
    (other : create (some g') howmany flags u ≡ ok (some q) u1) (ra ra' rb : ℕ)
    (d : Process w.env g (nonneg howmany) flags c ra rb)
    (d' : Process u.env g' (nonneg howmany) flags c ra' rb) where
  abbrev m : ℕ
  m = nonneg howmany

  z : HasShares g m flags c ra rb p.long_n0 p.long_n1 p.long_n2
  z = create-HasShares g howmany flags c ra rb w w1 p d one

  z' : HasShares g' m flags c ra' rb q.long_n0 q.long_n1 q.long_n2
  z' = create-HasShares g' howmany flags c ra' rb u u1 q d' other

  module _ {V : Type 0} (t : Transpose) (before behind : Contents V) (bits : AreBits w.env.fftw)
      (is_a : p.backward_a ≡ some t) (moved : Exchanges w.env.fftw (shape_of t) before behind) where
    moved_to :
        (x : Four)
        → IsLocal p.long_n2 q.long_n1 x
        → behind ra' (landed_a p.long_n2 g.n1 x)
          ≡ before ra (address_of p.long_n2 (source_a q.long_n1 x))
    moved_to x l =
        let (a, b, have, y) = create-Agreed g howmany flags c ra rb w w1 p d one in
        let (a', b', have', y') = create-Agreed g' howmany flags c ra' rb u u1 q d' other in
        let (f0, f1, f2) = z.fields in
        let s : agreed_a w.env.fftw g m flags c ra rb ≡ shape_of t =
          sym y.is_a ∙ same_shape have.backward_a is_a in
        let start1 : p.long_n2.start.i1 ≡ ra * c.n1_a = z.start1_a (λ e. omega (arith, e, l.in1)) in
        let start2 = (z'.start2 (λ e. omega (arith, e, l.in2))).0 in
        let moves =
          moves_a w.env.fftw g m flags c ra ra' rb bits
            (subst (λ s. Exchanges w.env.fftw s before behind) (sym s) moved) x.i0 x.i1 x.i2 x.i3
            (omega (arith, l.in0, z.size0)) (omega (arith, l.in1, z.size1))
            (rw n2 (omega (arith, l.in2, z'.size2))) (omega (arith, l.in3, f2)) in
        ap (behind ra') (rw (f2, z.size0.0, z.size1.0, start1) (omega arith))
        ∙ moves
        ∙ ap (before ra) (rw (z.at2 (source_a q.long_n1 x), z.size0.0, z.size1.0, start2) refl)

  described_at :
      (x : Four)
      → address_of q.long_n1 (described_a p.long_n2 x)
        ≡ ((x.i2 * p.long_n2.size.i0 + x.i0) * g.n1 + (p.long_n2.start.i1 + x.i1)) * m + x.i3
  described_at x =
      let e : part g'.n0 c.n0_b rb ≡ p.long_n2.size.i0 =
        ap (λ n. part n c.n0_b rb) (sym n0) ∙ sym z.size0.0 in
      rw (z'.at1 (described_a p.long_n2 x), z'.size0.1, e, ← n1) refl

  -- An element of a problem's pencil long in n2 lands where the extents of the pencil long in n1 have it exactly if the
  -- two ways to count n0 and n1 agree on it.
  landed-described_iff :
      (x : Four)
      → IsLocal p.long_n2 q.long_n1 x
      → (landed_a p.long_n2 g.n1 x ≡ address_of q.long_n1 (described_a p.long_n2 x)) ↔ (
          p.long_n2.size.i0 * p.long_n2.start.i1 + x.i0 * p.long_n2.size.i1
          ≡ x.i0 * g.n1 + p.long_n2.start.i1)
  landed-described_iff x l =
      let (f0, f1, f2) = z.fields in
      let there : landed_a p.long_n2 g.n1 x ≡ _ =
        ap
          (λ k.
            (x.i2 * (p.long_n2.size.i0 * g.n1)
                + (p.long_n2.size.i0 * p.long_n2.start.i1 + (x.i0 * p.long_n2.size.i1 + x.i1)))
              * k
            + x.i3)
          f2 in
      (
        (λ e.
            let s =
              place-injective _ _ m x.i3 (omega (arith, l.in3, f2))
                (sym there ∙ e ∙ described_at x) in
            omega (arith, s)),
        (λ e. there ∙ ap (λ k. k * m + x.i3) (omega (arith, e)) ∙ sym (described_at x)),
      )

  -- All of n1 in one process, or one plane of n0 only.
  counts_agree :
      (x : Four)
      → IsLocal p.long_n2 q.long_n1 x
      → (p.long_n2.size.i0 ≡ 1) ⊎ (p.long_n2.size.i1 ≡ g.n1)
      → p.long_n2.size.i0 * p.long_n2.start.i1 + x.i0 * p.long_n2.size.i1
        ≡ x.i0 * g.n1 + p.long_n2.start.i1
  counts_agree x l (inl e) = let e0 : x.i0 ≡ 0 = omega (arith, l.in0, e) in rw (e, e0) (omega arith)
  counts_agree x l (inr e) =
      let s : p.long_n2.start.i1 ≡ ra * c.n1_a = z.start1_a (λ f. omega (arith, f, l.in1)) in
      let whole : part g.n1 c.n1_a ra ≡ g.n1 = sym z.size1.0 ∙ e in
      let none_before : p.long_n2.start.i1 ≡ 0 = ground (arith, s, whole, l.in1, e) in
      rw (none_before, e) (omega arith)

  module _ {V : Type 0} (t : Transpose) (before behind : Contents V) (bits : AreBits w.env.fftw)
      (is_a : p.backward_a ≡ some t) (moved : Exchanges w.env.fftw (shape_of t) before behind) where
    -- Where FFTW and MPI do what is documented of them, and its two flags are bits of their
    -- own: the transpose from long in n2 to long in n1 moves every element of process `ra` to
    -- the process that has it in n2, where n0 and n1 are counted process by process; this is
    -- where the extents have the element exactly if the two ways to count agree on it.
    pub create-lands_a :
        (x : Four)
        → IsLocal p.long_n2 q.long_n1 x
        → (behind ra' (landed_a p.long_n2 g.n1 x)
            ≡ before ra (address_of p.long_n2 (source_a q.long_n1 x)))
          × ((landed_a p.long_n2 g.n1 x ≡ address_of q.long_n1 (described_a p.long_n2 x)) ↔ (
              p.long_n2.size.i0 * p.long_n2.start.i1 + x.i0 * p.long_n2.size.i1
              ≡ x.i0 * g.n1 + p.long_n2.start.i1))
    create-lands_a x l = (moved_to t before behind bits is_a moved x l, landed-described_iff x l)

    -- Where FFTW and MPI do what is documented of them, its two flags are bits of their own,
    -- and the process has one plane of n0 only, or all of n1: the transpose from long in n2 to
    -- long in n1 brings every element to the address that the extents of the pencil long in n1
    -- give it, in the process that has it in n2.
    pub create-delivers_a :
        (x : Four)
        → IsLocal p.long_n2 q.long_n1 x
        → (p.long_n2.size.i0 ≡ 1) ⊎ (p.long_n2.size.i1 ≡ g.n1)
        → behind ra' (address_of q.long_n1 (described_a p.long_n2 x))
          ≡ before ra (address_of p.long_n2 (source_a q.long_n1 x))
    create-delivers_a x l simple =
        ap (behind ra') (sym ((landed-described_iff x l).1 (counts_agree x l simple)))
        ∙ moved_to t before behind bits is_a moved x l
