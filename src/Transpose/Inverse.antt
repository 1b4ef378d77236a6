-- ===== src/Transpose/Inverse.antt =====
-- The inverse of a transpose undoes its shape.
use Prim.Native.Nat.{bit_and-bitwise}
use underling.Common.{
  ℕ, ◌≡◌, refl, ◌≢◌, ◌⊎◌, inl, inr, bit_and, zero-bit_or, String, Option, none, some, arith,
}
use underling.Machine.{World, ok, FftwConstants}
use underling.Machine.Yields.{Yields, returns, bind, cases}
use underling.Machine.At.{At, anywhere, look, fork, step}
use underling.Error.{error_null, error_val}
use underling.Transpose.Defs.{
  Transpose, fix_local, without_local, with_local, workspace, inverse_flags, create_inverse,
}

-- What FFTW documents of its two flags: they are bits of their own.
pub record AreBits (k : FftwConstants) : Type 0 where
  pub in_in : bit_and k.transposed_in k.transposed_in ≢ 0
  pub out_out : bit_and k.transposed_out k.transposed_out ≢ 0
  pub in_out : bit_and k.transposed_in k.transposed_out ≡ 0
  pub out_in : bit_and k.transposed_out k.transposed_in ≡ 0

-- The flags that the library gives to its transposes: none, or one of the two.
abbrev pub IsTransposed : FftwConstants → ℕ → Type 0
IsTransposed k flags = (flags ≡ 0) ⊎ ((flags ≡ k.transposed_in) ⊎ (flags ≡ k.transposed_out))

pub zero-bit_and : (b : ℕ) → bit_and 0 b ≡ 0
zero-bit_and b = bit_and-bitwise 0 b

inverse_flags-inverse_flags :
    (k : FftwConstants) (flags : ℕ)
    → AreBits k
    → IsTransposed k flags
    → inverse_flags k (inverse_flags k flags) ≡ flags
unfolding inverse_flags
inverse_flags-inverse_flags k flags b (inl e) =
    rw e (ground (arith, zero-bit_and k.transposed_in, zero-bit_and k.transposed_out))
inverse_flags-inverse_flags k flags b (inr (inl e)) =
    ground (arith, zero-bit_or k.transposed_out, zero-bit_or k.transposed_in)
inverse_flags-inverse_flags k flags b (inr (inr e)) =
    ground (arith, zero-bit_or k.transposed_out, zero-bit_or k.transposed_in)

-- The shape of the inverse.
abbrev pub Inverts : FftwConstants → Transpose → Option Transpose → Type 0
Inverts k f none = Unit
Inverts k f (some b) =
    (b.d0 ≡ f.d1)
    × (b.d1 ≡ f.d0)
    × (b.howmany ≡ f.howmany)
    × (b.block0 ≡ f.block1)
    × (b.block1 ≡ f.block0)
    × (b.flags ≡ inverse_flags k f.flags)

fix_local-Inverts :
    (k : FftwConstants) (f t : Transpose) (reason : String)
    → Inverts k f (some t)
    → Yields (fix_local t reason) (Inverts k f)
unfolding fix_local error_null error_val without_local with_local
fix_local-Inverts k f t reason i =
    cases (λ _. bind _ λ _. bind _ λ _. returns none tt)
      λ _. cases (λ _. returns _ i) λ _. bind _ λ r. returns _ i

pub create_inverse-Inverts :
    (f : Transpose) (w : World) → At w (create_inverse (some f)) (Inverts w.env.fftw f)
unfolding create_inverse error_null error_val workspace
create_inverse-Inverts f w = look _ _ (
    fork (λ _. anywhere (bind _ λ _. returns none tt))
      λ _. step _ _ (
        fork (λ _. anywhere (bind _ λ _. returns none tt))
          λ _.
            anywhere (bind _ λ c. fix_local-Inverts _ f _ _ (refl, refl, refl, refl, refl, refl))))

-- Where FFTW's two flags are bits of their own and a transpose has at most one of them, the inverse
-- of its inverse has its sizes, fields, blocks and flags.
pub create_inverse_twice :
    (f b c : Transpose) (w w' u u' : World)
    → AreBits w.env.fftw
    → IsTransposed w.env.fftw f.flags
    → u.env.fftw ≡ w.env.fftw
    → create_inverse (some f) w ≡ ok (some b) w'
    → create_inverse (some b) u ≡ ok (some c) u'
    → (c.d0 ≡ f.d0)
      × (c.d1 ≡ f.d1)
      × (c.howmany ≡ f.howmany)
      × (c.block0 ≡ f.block0)
      × (c.block1 ≡ f.block1)
      × (c.flags ≡ f.flags)
create_inverse_twice f b c w w' u u' bits trans same p q =
    let i = (create_inverse-Inverts f w).run w' (some b) p in
    let j = (create_inverse-Inverts b u).run u' (some c) q in
    ground (arith, inverse_flags-inverse_flags w.env.fftw f.flags bits trans)
