-- ===== src/Exchange/RoundTrip.antt =====
-- A transpose and its inverse, over all processes.
use underling.Common.{ℕ, ◌+◌, ◌*◌, ◌<◌, ◌≡◌, sym, ◌∙◌, inl, inr, arith, zero-bit_or}
use underling.Machine.{FftwConstants}
use underling.Transpose.Defs.{inverse_flags}
use underling.Transpose.Inverse.{AreBits, IsTransposed, zero-bit_and}
use underling.Exchange.Defs.{part, Shape, has, place, Contents, Exchanges}

abbrev pub inverted : FftwConstants → Shape → Shape
inverted k s = record {
  d0 = s.d1;
  d1 = s.d0;
  howmany = s.howmany;
  block0 = s.block1;
  block1 = s.block0;
  flags = inverse_flags k s.flags;
}

-- What comes in transposed goes out transposed, and the other way round.
flags_exchanged :
    (k : FftwConstants) (flags : ℕ)
    → AreBits k
    → IsTransposed k flags
    → (has (inverse_flags k flags) k.transposed_out ≡ has flags k.transposed_in)
      × (has (inverse_flags k flags) k.transposed_in ≡ has flags k.transposed_out)
unfolding inverse_flags
flags_exchanged k flags b (inl e) =
    rw e (ground (arith, zero-bit_and k.transposed_in, zero-bit_and k.transposed_out))
flags_exchanged k flags b (inr (inl e)) =
    ground (arith, zero-bit_or k.transposed_out, zero-bit_or k.transposed_in)
flags_exchanged k flags b (inr (inr e)) =
    ground (arith, zero-bit_or k.transposed_out, zero-bit_or k.transposed_in)

module _ {V : Type 0} (k : FftwConstants) (s : Shape) where
  -- The elements of the matrix are again where they were.
  abbrev pub Restored : (before behind : Contents V) → Type 0
  Restored before behind =
      (r r' a c h : ℕ)
      → a < part s.d0 s.block0 r
      → c < part s.d1 s.block1 r'
      → h < s.howmany
      → let at =
          place (has s.flags k.transposed_in) (part s.d0 s.block0 r) s.d1 s.howmany a
            (r' * s.block1 + c) h in
        behind r at ≡ before r at

  -- What the inverse moves from one to the other, the transpose moves the other way.
  pub exchange-inverted :
      {between behind : Contents V}
      → AreBits k
      → IsTransposed k s.flags
      → Exchanges k (inverted k s) between behind
      → Exchanges k s behind between
  exchange-inverted bits one back =
      let (f, g) = flags_exchanged k s.flags bits one in
      record {
        moves = λ r r' a c h la lc lh.
            let back' = back.moves r' r c a h lc la lh in sym (rw (f, g) at back');
      }

  pub exchange-restores :
      {before between behind : Contents V}
      → Exchanges k s before between
      → Exchanges k s behind between
      → Restored before behind
  exchange-restores there back r r' a c h la lc lh =
      sym (back.moves r r' a c h la lc lh) ∙ there.moves r r' a c h la lc lh
