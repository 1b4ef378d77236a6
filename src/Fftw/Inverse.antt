-- ===== src/Fftw/Inverse.antt =====
-- The inverse of an FFTW plan, and the execution of a plan that was made.
use underling.Common.{ℕ, ◌≡◌, ◌≢◌, ◌==◌, ℤ, String, Option, none, some}
use underling.Machine.{World, ok}
use underling.Machine.Yields.{Yields, returns, halts, bind, after, cases}
use underling.Error.{error_null, error_val}
use underling.FftwExtents.Defs.{Five, FftwExtents}
use underling.Fftw.Defs.{
  TransformType, unspecified, c2c_forward, c2c_backward, c2r_backward, r2c_forward, FftwPlan,
}
use underling.Fftw.Create.{discard, check_inverse, inverted, create_inverse}
use underling.Fftw.Made.{Made, c2c_internal-Made, c2r_internal-Made, r2c_internal-Made}

-- The transform that undoes one.
abbrev pub opposite : TransformType → TransformType
opposite unspecified = unspecified
opposite c2c_forward = c2c_backward
opposite c2c_backward = c2c_forward
opposite c2r_backward = r2c_forward
opposite r2c_forward = c2r_backward

module _ (i : ℕ) (t : TransformType) (from to : FftwExtents) (src dst : ℕ) where
  discard-Made :
      (b : FftwPlan) (reason : String) → Yields (discard b reason) (Made i t from to src dst)
  unfolding discard
  discard-Made b reason = bind _ λ _. bind _ λ _. returns none tt

  check_inverse-Made :
      (memcmp : Five → Five → ℤ) (f : FftwPlan) (b : Option FftwPlan)
      → Made i t from to src dst b
      → Yields (check_inverse memcmp f b) (Made i t from to src dst)
  unfolding check_inverse
  check_inverse-Made memcmp f none q = halts _
  check_inverse-Made memcmp f (some b) q =
      cases (λ _. discard-Made b _) λ _. cases (λ _. discard-Made b _) λ _. returns _ q

inverted-Made :
    (memcmp : Five → Five → ℤ) (f : FftwPlan) (t : TransformType) (src dst rigor : ℕ)
    → Yields
        (inverted memcmp f t src dst rigor)
        (Made f.long_ni (opposite t) f.output f.input src dst)
unfolding inverted error_null error_val
inverted-Made memcmp f unspecified src dst rigor = bind _ λ _. returns none tt
inverted-Made memcmp f c2c_forward src dst rigor =
    after (c2c_internal-Made _ _ _ _ _ _ _) λ b q. check_inverse-Made _ _ _ _ _ _ memcmp f b q
inverted-Made memcmp f c2c_backward src dst rigor =
    after (c2c_internal-Made _ _ _ _ _ _ _) λ b q. check_inverse-Made _ _ _ _ _ _ memcmp f b q
inverted-Made memcmp f c2r_backward src dst rigor =
    after (r2c_internal-Made _ _ _ _ _ _) λ b q. check_inverse-Made _ _ _ _ _ _ memcmp f b q
inverted-Made memcmp f r2c_forward src dst rigor =
    after (c2r_internal-Made _ _ _ _ _ _) λ b q. check_inverse-Made _ _ _ _ _ _ memcmp f b q

-- An inverse that is returned is the opposite transform of the same direction, reads what the plan
-- wrote and writes what it read, is in place exactly if the buffers are the same, and has the FFTW
-- plan of its transform.
pub create_inverse-exchanges :
    (memcmp : Five → Five → ℤ) (f : FftwPlan) (src dst rigor : ℕ) (w w' : World) (b : FftwPlan)
    → create_inverse memcmp (some f) src dst rigor w ≡ ok (some b) w'
    → (b.type ≡ opposite f.type)
      × (b.long_ni ≡ f.long_ni)
      × (b.input ≡ f.output)
      × (b.output ≡ f.input)
      × (b.in_place ≡ (src == dst))
      × (b.plan_fftw ≢ 0)
unfolding create_inverse
create_inverse-exchanges memcmp f src dst rigor w w' b h =
    let m = (inverted-Made memcmp f f.type src dst rigor).run w w' (some b) h in
    (m.0.kind, m.0.long, m.0.reads, m.0.writes, m.0.place, m.1)
