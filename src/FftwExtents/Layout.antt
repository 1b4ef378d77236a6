-- ===== src/FftwExtents/Layout.antt =====
-- What the layouts with five indices say of the memory.
use underling.Common.{
  ℕ, ◌+◌, ◌*◌, ◌/◌, ◌%◌, ◌≡◌, refl, ap, ◌∙◌, ◌↔◌, ◌≢◌, ◌⊎◌, inl, inr, ◌==◌, suc, Bool, true, none,
  some, false, ℤ, pos, arith,
}
use underling.Machine.{M, when◌then◌else◌, World, stop, endless, assert, pure, ◌>>=◌}
use underling.Extents.Defs.{Extents, Four, get}
use underling.FftwExtents.Defs.{
  Five, FftwExtents, cmp, is, rotated, rotate_until, adjust, complex_layout,
}
use underling.FftwExtents.Rotate.{rotate_until_endless, rotate_until-settles, rotate_until_ends}

-- Where `memcmp` is zero exactly on equal memory, the comparison is zero exactly if start, size,
-- stride and order agree.
pub fftw_cmp-zero_iff :
    (memcmp : Five → Five → ℤ) (e1 e2 : FftwExtents)
    → ((a b : Five) → (memcmp a b ≡ pos 0) ↔ (a ≡ b))
    → (cmp memcmp e1 e2 ≡ pos 0) ↔ (
        (e1.start ≡ e2.start)
        × (e1.size ≡ e2.size)
        × (e1.stride ≡ e2.stride)
        × (e1.order ≡ e2.order))
unfolding cmp
fftw_cmp-zero_iff memcmp e1 e2 h =
    ground
      (arith, h e1.start e2.start, h e1.size e2.size, h e1.stride e2.stride, h e1.order e2.order)

-- Where an index stands in memory.
abbrev pub five_address : Five → Five → ℕ
five_address t x = x.i0 * t.i0 + x.i1 * t.i1 + x.i2 * t.i2 + x.i3 * t.i3 + x.i4 * t.i4

half : (a : ℕ) → a % 2 ≡ 0 → a / 2 * 2 ≡ a
half a h = omega arith

-- The complex layout of a field count that is even covers the same elements: it has as many, and
-- part c of complex field k stands where real field 2 k + c stands.
pub complex_layout_lem :
    (e : Extents) (x0 x1 x2 k c : ℕ)
    → e.size.i3 % 2 ≡ 0
    → let f = complex_layout e in
      (f.size.i0 * f.size.i1 * f.size.i2 * (f.size.i3 * f.size.i4)
        ≡ e.size.i0 * e.size.i1 * e.size.i2 * e.size.i3)
      × (five_address f.stride (record { i0 = x0; i1 = x1; i2 = x2; i3 = k; i4 = c })
          ≡ x0 * e.stride.i0 + x1 * e.stride.i1 + x2 * e.stride.i2 + (2 * k + c) * e.stride.i3)
unfolding complex_layout
complex_layout_lem e x0 x1 x2 k c h = (rw (half e.size.i3 h) refl, omega arith)

not_true : (b : Bool) → b ≢ true → b ≡ false
not_true true h = absurd (h refl)
not_true false h = refl

assert-ends :
    {A : Type 0} (b : Bool) (v : A) (w : World) → (assert b >>= λ _. pure v) w ≢ stop endless w
unfolding ◌>>=◌
assert-ends true v w h = absurd (cc)
assert-ends false v w h = absurd (cc)

when-ends :
    {A : Type 0} (b : Bool) (m k : M A) (w : World)
    → m w ≢ stop endless w
    → k w ≢ stop endless w
    → (when b then m else k) w ≢ stop endless w
unfolding when◌then◌else◌
when-ends true m k w p q = p
when-ends false m k w p q = q

-- A loop that ends does not end as endless.
rotated-ends :
    (e : Extents) (o : Four) (n : ℕ) (w : World) → rotated e (some (o, n)) w ≢ stop endless w
unfolding rotated
rotated-ends e o n w =
    when-ends (n == 0) _ _ w (λ h. absurd (cc)) (assert-ends (get e.stride (get o 0) == 1) _ w)

rotated-none : (e : Extents) (w : World) → rotated e none w ≡ stop endless w
unfolding rotated
rotated-none e w = refl

-- The adjustment stops as endless exactly if the long direction is none of the last three entries of
-- the order; and three rounds of its loop find what any larger number of rounds finds, so that the
-- loop does not end exactly there.
pub adjust-endless_iff :
    (e : Extents) (l : ℤ) (w : World)
    → ((adjust e l w ≡ stop endless w)
        ↔ ((is l e.order.i1 ≡ false) × (is l e.order.i2 ≡ false) × (is l e.order.i3 ≡ false)))
      × ((fuel : ℕ) → rotate_until (suc (suc (suc fuel))) l e.order 0 ≡ rotate_until 3 l e.order 0)
unfolding adjust
adjust-endless_iff e l w = ((to, from), λ fuel. rotate_until-settles fuel l e.order)
  where
    ends :
        (is l e.order.i1 ≡ true) ⊎ ((is l e.order.i2 ≡ true) ⊎ (is l e.order.i3 ≡ true))
        → rotated e (rotate_until 3 l e.order 0) w ≢ stop endless w
    ends d h =
        let (p, n, f, _, _, _) = rotate_until_ends 0 l e.order d in rotated-ends e p n w (rw f at h)

    to :
        rotated e (rotate_until 3 l e.order 0) w ≡ stop endless w
        → (is l e.order.i1 ≡ false) × (is l e.order.i2 ≡ false) × (is l e.order.i3 ≡ false)
    to h = (
      not_true _ (λ t. ends (inl t) h),
      not_true _ (λ t. ends (inr (inl t)) h),
      not_true _ (λ t. ends (inr (inr t)) h),
    )

    from :
        (is l e.order.i1 ≡ false) × (is l e.order.i2 ≡ false) × (is l e.order.i3 ≡ false)
        → rotated e (rotate_until 3 l e.order 0) w ≡ stop endless w
    from (h1, h2, h3) =
        ap (λ o. rotated e o w) (rotate_until_endless 3 l e.order 0 h1 h2 h3) ∙ rotated-none e w
