-- ===== src/Extents/Compare.antt =====
-- What `underling_extents_cmp` decides.
use underling.Common.{◌≡◌, ◌↔◌, ℤ, pos, arith}
use underling.Extents.Defs.{Four, Extents, cmp}

-- Where `memcmp` is zero exactly on equal memory, the comparison is zero exactly if start, size,
-- stride and order agree.
pub cmp-zero_iff :
    (memcmp : Four → Four → ℤ) (e1 e2 : Extents)
    → ((a b : Four) → (memcmp a b ≡ pos 0) ↔ (a ≡ b))
    → (cmp memcmp e1 e2 ≡ pos 0) ↔ (
        (e1.start ≡ e2.start)
        × (e1.size ≡ e2.size)
        × (e1.stride ≡ e2.stride)
        × (e1.order ≡ e2.order))
unfolding cmp
cmp-zero_iff memcmp e1 e2 h =
    ground
      (arith, h e1.start e2.start, h e1.size e2.size, h e1.stride e2.stride, h e1.order e2.order)
