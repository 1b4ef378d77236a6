-- ===== src/Fftw/Release.antt =====
-- FFTW plans that are created and destroyed leave nothing behind.
use underling.Common.{ℕ, ◌≡◌, refl, ℤ, String, Option, none, some, arith}
use underling.Machine.{Env, M, World, ok, ◌>>=◌}
use underling.Machine.Count.{Resource, Accounts}
use underling.Machine.Spends.{Spends, seq, pure_, halt_, branch, assert_, aside, same}
use underling.Machine.Paired.{paired}
use underling.Error.{Status, einval, esanity, error_null}
use underling.Error.Laws.{error-Spends, error_val-Spends}
use underling.Extents.Defs.{Four, Extents}
use underling.Problem.Defs.{Problem}
use underling.Problem.Query.{local_extents}
use underling.FftwExtents.Defs.{
  Five, FftwExtents, rotated, adjust, or_invalid, for_complex, for_real,
}
use underling.Fftw.Defs.{
  TransformType, unspecified, c2c_forward, c2c_backward, c2r_backward, r2c_forward, FftwPlan,
  destroy,
}
use underling.Fftw.Complex.{Sign}
use underling.Fftw.Create.{
  with_packing, not_in_place, create_c2c, create_c2r_backward, create_r2c_forward, discard,
  check_inverse, inverted, create_inverse,
}
use underling.Fftw.Accounts.{
  owned?, owned, destroy-Spends, c2c_internal-Spends, c2r_internal-Spends, r2c_internal-Spends,
}

module _ {E : Env → Type 0} (r : Resource) where
  pub local_extents-Spends :
      (p : Option Problem) (i : ℤ) → Spends E r 0 (local_extents p i) (λ _. 0)
  unfolding local_extents
  local_extents-Spends none i =
      branch (λ _. error_val-Spends r _ einval _ _) λ _. error_val-Spends r _ einval _ _
  local_extents-Spends (some p) i = branch (λ _. error_val-Spends r _ einval _ _) λ _. pure_ _ refl

  or_invalid-Spends :
      (o : Option (String × Status)) (go : M FftwExtents)
      → Spends E r 0 go (λ _. 0)
      → Spends E r 0 (or_invalid o go) (λ _. 0)
  unfolding or_invalid
  or_invalid-Spends none go p = p
  or_invalid-Spends (some (reason, e)) go p = error_val-Spends r reason e _ _

  for_complex-Spends : (e : Extents) (i : ℤ) → Spends E r 0 (for_complex e i) (λ _. 0)
  unfolding for_complex
  for_complex-Spends e i = or_invalid-Spends _ _ (pure_ _ refl)

  for_real-Spends : (e : Extents) (i : ℤ) → Spends E r 0 (for_real e i) (λ _. 0)
  unfolding for_real
  for_real-Spends e i = or_invalid-Spends _ _ (
      branch (λ _. error_val-Spends r _ einval _ _)
        λ _. branch (λ _. pure_ _ refl) λ _. error_val-Spends r _ esanity _ _)

  rotated-Spends : (e : Extents) (o : Option (Four × ℕ)) → Spends E r 0 (rotated e o) (λ _. 0)
  unfolding rotated
  rotated-Spends e none = halt_ _
  rotated-Spends e (some (o, n)) =
      branch (λ _. pure_ _ refl) λ _. aside (assert_ _) λ _. pure_ _ refl

  adjust-Spends : (e : Extents) (i : ℤ) → Spends E r 0 (adjust e i) (λ _. 0)
  unfolding adjust
  adjust-Spends e i = rotated-Spends e _

  with_packing-Spends :
      (i : ℤ) (flags src dst : ℕ) (e : FftwExtents) (go : FftwExtents → M (Option FftwPlan))
      → ((e' : FftwExtents) → Spends E r 0 (go e') (owned? r))
      → Spends E r 0 (with_packing i flags src dst e go) (owned? r)
  unfolding with_packing error_null
  with_packing-Spends i flags src dst e go p =
      branch (λ _. branch (λ _. error_val-Spends r _ einval none _) λ _. p _) λ _. p _

  not_in_place-Spends :
      (i : ℤ) (src dst : ℕ) (e : FftwExtents) (reason : String) (go : M (Option FftwPlan))
      → Spends E r 0 go (owned? r)
      → Spends E r 0 (not_in_place i src dst e reason go) (owned? r)
  unfolding not_in_place error_null
  not_in_place-Spends i src dst e reason go p =
      branch (λ _. error_val-Spends r reason esanity none _) λ _. p

  pub create_c2c-Spends :
      (s : Sign) (p : Option Problem) (i : ℤ) (src dst rigor flags : ℕ)
      → Spends E r 0 (create_c2c s p i src dst rigor flags) (owned? r)
  unfolding create_c2c
  create_c2c-Spends s p i src dst rigor flags = aside (local_extents-Spends p i) λ e.
      aside (for_complex-Spends e i) λ from. aside (adjust-Spends e i) λ a.
        aside (for_complex-Spends _ i) λ to.
          with_packing-Spends _ _ _ _ _ _ λ out. c2c_internal-Spends r i src dst s rigor from out

  create_c2r_backward-Spends :
      (p : Option Problem) (i : ℤ) (src dst rigor flags : ℕ)
      → Spends E r 0 (create_c2r_backward p i src dst rigor flags) (owned? r)
  unfolding create_c2r_backward
  create_c2r_backward-Spends p i src dst rigor flags = aside (local_extents-Spends p i) λ e.
      aside (for_complex-Spends e i) λ from. aside (adjust-Spends e i) λ a.
        aside (for_real-Spends _ i) λ to.
          with_packing-Spends _ _ _ _ _ _
            λ out. not_in_place-Spends _ _ _ _ _ _ (c2r_internal-Spends r i src dst rigor from out)

  pub create_r2c_forward-Spends :
      (p : Option Problem) (i : ℤ) (src dst rigor flags : ℕ)
      → Spends E r 0 (create_r2c_forward p i src dst rigor flags) (owned? r)
  unfolding create_r2c_forward
  create_r2c_forward-Spends p i src dst rigor flags = aside (local_extents-Spends p i) λ e.
      aside (for_complex-Spends e i) λ to. aside (adjust-Spends e i) λ a.
        aside (for_real-Spends _ i) λ from.
          with_packing-Spends _ _ _ _ _ _
            λ out. not_in_place-Spends _ _ _ _ _ _ (r2c_internal-Spends r i src dst rigor out to)

  discard-Spends :
      (b : FftwPlan) (reason : String) → Spends E r (owned r b) (discard b reason) (owned? r)
  unfolding discard
  discard-Spends b reason =
      aside (error-Spends r reason esanity)
        λ _. seq 0 (omega arith) (destroy-Spends r (some b)) λ _. pure_ none refl

  check_inverse-Spends :
      (memcmp : Five → Five → ℤ) (f : FftwPlan) (b : Option FftwPlan)
      → Spends E r (owned? r b) (check_inverse memcmp f b) (owned? r)
  unfolding check_inverse
  check_inverse-Spends memcmp f none = halt_ _
  check_inverse-Spends memcmp f (some b) =
      branch (λ _. discard-Spends b _) λ _. branch (λ _. discard-Spends b _) λ _. pure_ _ refl

  checked_after :
      (memcmp : Five → Five → ℤ) (f : FftwPlan) (m : M (Option FftwPlan))
      → Spends E r 0 m (owned? r)
      → Spends E r 0 (m >>= check_inverse memcmp f) (owned? r)
  checked_after memcmp f m p =
      seq 0 (omega arith) p λ b. same (omega arith) (check_inverse-Spends memcmp f b)

  inverted-Spends :
      (memcmp : Five → Five → ℤ) (f : FftwPlan) (t : TransformType) (src dst rigor : ℕ)
      → Spends E r 0 (inverted memcmp f t src dst rigor) (owned? r)
  unfolding inverted error_null
  inverted-Spends memcmp f unspecified src dst rigor = error_val-Spends r _ esanity none _
  inverted-Spends memcmp f c2c_forward src dst rigor =
      checked_after memcmp f _ (c2c_internal-Spends r _ _ _ _ _ _ _)
  inverted-Spends memcmp f c2c_backward src dst rigor =
      checked_after memcmp f _ (c2c_internal-Spends r _ _ _ _ _ _ _)
  inverted-Spends memcmp f c2r_backward src dst rigor =
      checked_after memcmp f _ (r2c_internal-Spends r _ _ _ _ _ _)
  inverted-Spends memcmp f r2c_forward src dst rigor =
      checked_after memcmp f _ (c2r_internal-Spends r _ _ _ _ _ _)

  pub create_inverse-Spends :
      (memcmp : Five → Five → ℤ) (f : Option FftwPlan) (src dst rigor : ℕ)
      → Spends E r 0 (create_inverse memcmp f src dst rigor) (owned? r)
  unfolding create_inverse error_null
  create_inverse-Spends memcmp none src dst rigor = error_val-Spends r _ einval none _
  create_inverse-Spends memcmp (some f) src dst rigor =
      inverted-Spends memcmp f f.type src dst rigor

-- Whatever the calls answer: making a complex transform of either sign, where it returns, holds the
-- block and the FFTW plans of the plan that it returns and nothing else, nothing at all where it
-- returns NULL; the destruction gives exactly these back.
pub destroy-create_c2c :
    (s : Sign) (p : Option Problem) (i : ℤ) (src dst rigor flags : ℕ) (r : Resource)
    (w w1 w2 : World) (f : Option FftwPlan)
    → create_c2c s p i src dst rigor flags w ≡ ok f w1
    → destroy f w1 ≡ ok tt w2
    → Accounts r w w1 0 (owned? r f) × Accounts r w1 w2 (owned? r f) 0 × Accounts r w w2 0 0
destroy-create_c2c s p i src dst rigor flags r w w1 w2 f h h' =
    paired (λ _. Unit) (create_c2c-Spends r s p i src dst rigor flags) (destroy-Spends r f) tt tt h
      h'

-- Whatever the calls answer: making a transform from complex to real, where it returns, holds the
-- block and the FFTW plans of the plan that it returns and nothing else, nothing at all where it
-- returns NULL; the destruction gives exactly these back.
pub destroy-create_c2r_backward :
    (p : Option Problem) (i : ℤ) (src dst rigor flags : ℕ) (r : Resource) (w w1 w2 : World)
    (f : Option FftwPlan)
    → create_c2r_backward p i src dst rigor flags w ≡ ok f w1
    → destroy f w1 ≡ ok tt w2
    → Accounts r w w1 0 (owned? r f) × Accounts r w1 w2 (owned? r f) 0 × Accounts r w w2 0 0
destroy-create_c2r_backward p i src dst rigor flags r w w1 w2 f h h' =
    paired (λ _. Unit) (create_c2r_backward-Spends r p i src dst rigor flags) (destroy-Spends r f)
      tt tt h h'

-- Whatever the calls answer: making a transform from real to complex, where it returns, holds the
-- block and the FFTW plans of the plan that it returns and nothing else, nothing at all where it
-- returns NULL; the destruction gives exactly these back.
destroy-create_r2c_forward :
    (p : Option Problem) (i : ℤ) (src dst rigor flags : ℕ) (r : Resource) (w w1 w2 : World)
    (f : Option FftwPlan)
    → create_r2c_forward p i src dst rigor flags w ≡ ok f w1
    → destroy f w1 ≡ ok tt w2
    → Accounts r w w1 0 (owned? r f) × Accounts r w1 w2 (owned? r f) 0 × Accounts r w w2 0 0
destroy-create_r2c_forward p i src dst rigor flags r w w1 w2 f h h' =
    paired (λ _. Unit) (create_r2c_forward-Spends r p i src dst rigor flags) (destroy-Spends r f) tt
      tt h h'

-- Whatever the calls and memcmp answer: making the inverse of a plan, where it returns, holds the
-- block and the FFTW plans of the plan that it returns and nothing else, nothing at all where it
-- returns NULL; the destruction gives exactly these back.
-- This includes an inverse that its last checks refuse.
pub destroy-create_fftw_inverse :
    (memcmp : Five → Five → ℤ) (f : Option FftwPlan) (src dst rigor : ℕ) (r : Resource)
    (w w1 w2 : World) (b : Option FftwPlan)
    → create_inverse memcmp f src dst rigor w ≡ ok b w1
    → destroy b w1 ≡ ok tt w2
    → Accounts r w w1 0 (owned? r b) × Accounts r w1 w2 (owned? r b) 0 × Accounts r w w2 0 0
destroy-create_fftw_inverse memcmp f src dst rigor r w w1 w2 b h h' =
    paired (λ _. Unit) (create_inverse-Spends r memcmp f src dst rigor) (destroy-Spends r b) tt tt h
      h'
