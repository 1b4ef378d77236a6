-- ===== src/Bench/Movement.antt =====
-- The movement of the fields among the buffers.
use underling.Common.{ℕ, ◌≤◌, ◌≡◌, refl, ◌↔◌, Bool, true, false, not, ◌||◌, List, [], ◌∷◌, arith}
use underling.Bench.Defs.{
  Details, Movement, movement, movement_of, leaves, extra, add32, neg32, truth,
}

abbrev pub moves : Movement → List ℕ
moves m = m.m0 ∷ m.m1 ∷ m.m2 ∷ m.m3 ∷ m.m4 ∷ m.m5 ∷ m.m6 ∷ m.m7 ∷ m.m8 ∷ m.m9 ∷ []

-- Where a field that starts at `s` stands after each operation.
abbrev pub positions : ℕ → List ℕ → List ℕ
positions s [] = []
positions s (m ∷ ms) = add32 s m ∷ positions (add32 s m) ms

abbrev pub AllAtMost : ℕ → List ℕ → Type 0
AllAtMost n [] = Unit {0}
AllAtMost n (x ∷ xs) = (x ≤ n) × AllAtMost n xs

abbrev pub last_of : ℕ → List ℕ → ℕ
last_of s [] = s
last_of s (x ∷ xs) = last_of x xs

-- Where a forward pass has moved a field.
abbrev pub total : Movement → ℕ
total m = add32 (add32 (add32 (add32 m.m0 m.m1) m.m2) m.m3) m.m4

-- What the comments of the block promise.
pub record Stays (fft2 mpi fft1 fft0 : Bool) (m : Movement) : Type 0 where
  pub within : AllAtMost (extra m) (positions 0 (moves m))
  pub returns : last_of 0 (positions 0 (moves m)) ≡ 0
  pub turns : total m ≤ 1
  pub home : add32 (add32 (add32 (add32 (add32 (total m) m.m5) m.m6) m.m7) m.m8) m.m9 ≡ 0
  pub extra_one : extra m ≤ 1
  pub room_mpi : truth mpi ≤ extra m
  pub room_fft : truth (fft2 || fft1 || fft0) ≤ extra m
  pub still0 : (m.m0 ≡ 0) ↔ (fft2 ≡ false)
  pub still1 : (m.m1 ≡ 0) ↔ (mpi ≡ false)
  pub still2 : (m.m2 ≡ 0) ↔ (fft1 ≡ false)
  pub still3 : (m.m3 ≡ 0) ↔ (mpi ≡ false)
  pub still4 : (m.m4 ≡ 0) ↔ (fft0 ≡ false)

pub movement-Stays :
    (fft2 mpi fft1 fft0 : Bool) → Stays fft2 mpi fft1 fft0 (movement fft2 mpi fft1 fft0)
unfolding movement extra
movement-Stays true mpi fft1 fft0 = ground arith
movement-Stays false mpi fft1 fft0 = ground arith

pub movement_backward :
    {R : Type 0} (d : Details R)
    → let m = movement_of d in
      (m.m5 ≡ neg32 m.m4)
      × (m.m6 ≡ neg32 m.m3)
      × (m.m7 ≡ neg32 m.m2)
      × (m.m8 ≡ neg32 m.m1)
      × (m.m9 ≡ neg32 m.m0)
unfolding movement_of movement
movement_backward d = (refl, refl, refl, refl, refl)

-- The ten movements of a benchmark keep every field within its buffer and the one behind it, or
-- within its own where no further buffer is allocated; they end where they began; an operation
-- leaves its buffer exactly if it is out of place; and there is room for the buffers that plans are
-- made with.
pub movement_of-Stays :
    {R : Type 0} (d : Details R)
    → Stays
        (leaves d d.fft_n2)
        (not d.mpi_inplace)
        (leaves d d.fft_n1)
        (leaves d d.fft_n0)
        (movement_of d)
unfolding movement_of
movement_of-Stays d =
    movement-Stays (leaves d d.fft_n2) (not d.mpi_inplace) (leaves d d.fft_n1) (leaves d d.fft_n0)
