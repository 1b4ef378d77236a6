-- ===== src/Tests/Layouts.antt =====
-- A `memcmp`, and the layouts of a field of 4 by 5 by 6 by 4.
use underling.Common.{
  ℕ, suc, false, ◌+◌, ◌*◌, ◌≡◌, refl, ◌↔◌, ℤ, pos, arith, List, [], ◌∷◌, ◌==◌, if◌then◌else◌,
}
use underling.Machine.{stop, endless}
use underling.Extents.Defs.{Four, four, Extents, cmp}
use underling.Extents.Compare.{cmp-zero_iff}
use underling.FftwExtents.Defs.{Five, is, rotate_until, adjust, complex_layout}
use underling.FftwExtents.Layout.{five_address, complex_layout_lem, adjust-endless_iff}
use underling.Tests.Worlds.{world}

abbrev order : Four
order = four 3 0 2 1

abbrev size : Four
size = four 4 5 6 4

abbrev field : Extents
field = record {
  start = four 0 0 0 0;
  size = size;
  stride = four 4 96 16 1;
  order = order;
  extent = 480;
}

adjust-endless_iff_example :
    ((adjust field (pos 3) world ≡ stop endless world)
      ↔ ((is (pos 3) 0 ≡ false) × (is (pos 3) 2 ≡ false) × (is (pos 3) 1 ≡ false)))
    × ((fuel : ℕ)
        → rotate_until (suc (suc (suc fuel))) (pos 3) order 0 ≡ rotate_until 3 (pos 3) order 0)
adjust-endless_iff_example = adjust-endless_iff field (pos 3) world

complex_layout_lem_example :
    let f = complex_layout field in
    (f.size.i0 * f.size.i1 * f.size.i2 * (f.size.i3 * f.size.i4) ≡ 4 * 5 * 6 * 4)
    × (five_address f.stride (record { i0 = 1; i1 = 2; i2 = 3; i3 = 1; i4 = 1 })
        ≡ 1 * 4 + 2 * 96 + 3 * 16 + (2 * 1 + 1) * 1)
complex_layout_lem_example = complex_layout_lem field 1 2 3 1 1 refl

-- A `memcmp` of a machine that says 1 for every difference.
abbrev pub differ : List ℕ → List ℕ → ℤ
differ (a ∷ r) (b ∷ s) = if a == b then differ r s else pos 1
differ _ _ = pos 0

abbrev memcmp : Four → Four → ℤ
memcmp a b = differ (a.i0 ∷ a.i1 ∷ a.i2 ∷ a.i3 ∷ []) (b.i0 ∷ b.i1 ∷ b.i2 ∷ b.i3 ∷ [])

memcmp-zero_iff : (a b : Four) → (memcmp a b ≡ pos 0) ↔ (a ≡ b)
memcmp-zero_iff a b = (λ h. ground arith, λ h. ground arith)

abbrev pub memcmp5 : Five → Five → ℤ
memcmp5 a b = differ (a.i0 ∷ a.i1 ∷ a.i2 ∷ a.i3 ∷ a.i4 ∷ []) (b.i0 ∷ b.i1 ∷ b.i2 ∷ b.i3 ∷ b.i4 ∷ [])

cmp-zero_iff_example : (cmp memcmp field field ≡ pos 0) ↔ (
    (field.start ≡ field.start) × (size ≡ size) × (field.stride ≡ field.stride) × (order ≡ order))
cmp-zero_iff_example = cmp-zero_iff memcmp field field memcmp-zero_iff
