-- ===== src/Exchange/RowsB.antt =====
-- What FFTW moves along pB_comm, row by row.
use underling.Common.{ℕ, ◌+◌, ◌*◌, ◌<◌, ◌≡◌, false, Bool-cases, inl, inr, if◌then◌else◌, arith}
use underling.Machine.{FftwConstants}
use underling.Grid.Defs.{Grid}
use underling.Transpose.Inverse.{AreBits, zero-bit_and}
use underling.Problem.Defs.{has_flag, transposed_long_n0}
use underling.Exchange.Defs.{has, part, place, Contents, Exchanges}
use underling.Exchange.Shares.{agreed_b, l2}
use underling.Exchange.Blocks.{Blocks}
use underling.Exchange.Places.{part-mul}
use underling.Exchange.AlongA.{row-lt}

-- Whether FFTW is told that the blocks come in, or go out, transposed.
pub flags_b :
    (k : FftwConstants) (flags : ℕ)
    → AreBits k
    → let f : ℕ = if has_flag flags transposed_long_n0 then k.transposed_out else 0 in
      (has f k.transposed_out ≡ has_flag flags transposed_long_n0) × (has f k.transposed_in ≡ false)
flags_b k flags b = elim (Bool-cases (has_flag flags transposed_long_n0)) [
  | inl e ↦ rw e (ground (arith, b.out_out, b.out_in))
  | inr e ↦ rw e (ground (arith, zero-bit_and k.transposed_in, zero-bit_and k.transposed_out))
]

module _ {V : Type 0} (k : FftwConstants) (g : Grid) (m flags : ℕ) (c : Blocks) (r r' ra : ℕ)
    (bits : AreBits k) {before behind : Contents V}
    (moved : Exchanges k (agreed_b k g m flags c ra r) before behind) where
  abbrev planes : ℕ
  planes = l2 k g m flags c ra r

  abbrev deep : ℕ
  deep = part g.n0 c.n0_b r

  pub moves_b :
      (i0 i1 i2 h : ℕ)
      → i0 < deep
      → i1 < part g.n1 c.n1_b r'
      → i2 < planes
      → h < m
      → behind r' (
          place
            (has_flag flags transposed_long_n0)
            (part g.n1 c.n1_b r')
            (planes * g.n0)
            m
            i1
            (r * (planes * c.n0_b) + (i2 * deep + i0))
            h)
        ≡ before r (((i2 * deep + i0) * g.n1 + (r' * c.n1_b + i1)) * m + h)
  moves_b i0 i1 i2 h b0 b1 b2 bh =
      let e : part (planes * g.n0) (planes * c.n0_b) r ≡ planes * deep =
        part-mul planes g.n0 c.n0_b r in
      let (f, f') = flags_b k flags bits in
      let x =
        moved.moves r r' (i2 * deep + i0) i1 h (rw e (row-lt planes deep i2 i0 b2 b0)) b1 bh in
      rw (f, f') at x
