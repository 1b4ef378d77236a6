-- ===== src/Bench/RoundTrip.antt =====
-- The normalization of the benchmark: the lengths of its transforms, and their product.
use underling.Common.{ℕ, ◌+◌, ◌-◌, ◌*◌, ◌==◌, nonneg, if◌then◌else◌}
use underling.Bench.Defs.{Details, truth}

-- How long the transform of a direction is, by its letter.
unfoldable pub logical_extent : (letter n : ℕ) → ℕ
logical_extent letter n =
    if letter == b'c' then n else if letter == b'r' then 2 * (n - 1) + truth (n == 1) else 1

module _ {R : Type 0} (d : Details R) where
  abbrev pub logical0 : ℕ
  logical0 = logical_extent d.fft_n0 (nonneg d.n0)

  abbrev pub logical1 : ℕ
  logical1 = logical_extent d.fft_n1 (nonneg d.n1)

  abbrev pub logical2 : ℕ
  logical2 = logical_extent d.fft_n2 (nonneg d.n2)

  -- One over `normalization`.
  unfoldable pub logical_volume : ℕ
  logical_volume = logical0 * logical1 * logical2
