-- ===== src/Fftw/Made.antt =====
-- What the internal creations make.
use underling.Common.{
  ℕ, ◌≡◌, refl, ◌≢◌, ◌==◌, Bool, true, false, ℤ, nonneg, String, Option, none, some, arith,
}
use underling.Machine.{Reply}
use underling.Machine.Yields.{Yields, returns, bind, cases, passes}
use underling.Error.{error_null, error_val}
use underling.FftwExtents.Defs.{FftwExtents}
use underling.Fftw.Defs.{TransformType, c2r_backward, r2c_forward, FftwPlan}
use underling.Fftw.Complex.{Sign, type_of, initial, fail, c2c_transform, c2c_reorder, c2c_internal}
use underling.Fftw.Half.{
  c2r_postorder, c2r_transform, c2r_preorder, c2r_internal, r2c_postorder, r2c_transform,
  r2c_internal,
}

-- The plan has the parameters of its creation, and it reorders only in place.
pub record IsBegun (i : ℕ) (t : TransformType) (from to : FftwExtents) (src dst : ℕ) (f : FftwPlan)
    : Type 0 where
  pub long : f.long_ni ≡ i
  pub kind : f.type ≡ t
  pub reads : f.input ≡ from
  pub writes : f.output ≡ to
  pub place : f.in_place ≡ (src == dst)
  pub preorders : f.in_place ≡ false → f.plan_preorder ≡ 0
  pub postorders : f.in_place ≡ false → f.plan_postorder ≡ 0

module _ (i : ℕ) (t : TransformType) (from to : FftwExtents) (src dst : ℕ) where
  -- It has the FFTW plan of the transform too.
  abbrev pub IsMade : FftwPlan → Type 0
  IsMade f = IsBegun i t from to src dst f × (f.plan_fftw ≢ 0)

  abbrev pub Made : Option FftwPlan → Type 0
  Made none = Unit
  Made (some f) = IsMade f

  initial-IsBegun : (m : Reply) → IsBegun i t from to src dst (initial m i t from to src dst)
  unfolding initial
  initial-IsBegun m = record {
    long = refl;
    kind = refl;
    reads = refl;
    writes = refl;
    place = refl;
    preorders = λ _. refl;
    postorders = λ _. refl;
  }

  -- Neither the offsets nor the plan of the transform matter to it.
  with_transform :
      (f : FftwPlan) (o : _) (p : ℕ)
      → IsBegun i t from to src dst f
      → IsBegun i t from to src dst (record f { offset = o; plan_fftw = p })
  with_transform f o p b = record {
    long = b.long;
    kind = b.kind;
    reads = b.reads;
    writes = b.writes;
    place = b.place;
    preorders = b.preorders;
    postorders = b.postorders;
  }

  with_preorder :
      (f : FftwPlan) (p : ℕ)
      → f.in_place ≡ true
      → IsBegun i t from to src dst f
      → IsBegun i t from to src dst (record f { plan_preorder = p })
  with_preorder f p e b = record {
    long = b.long;
    kind = b.kind;
    reads = b.reads;
    writes = b.writes;
    place = b.place;
    preorders = λ h. absurd (cc);
    postorders = b.postorders;
  }

  with_postorder :
      (f : FftwPlan) (p : ℕ)
      → f.in_place ≡ true
      → IsBegun i t from to src dst f
      → IsBegun i t from to src dst (record f { plan_postorder = p })
  with_postorder f p e b = record {
    long = b.long;
    kind = b.kind;
    reads = b.reads;
    writes = b.writes;
    place = b.place;
    preorders = b.preorders;
    postorders = λ h. absurd (cc);
  }

  fail-Made : (f : FftwPlan) (reason : String) → Yields (fail f reason) Made
  unfolding fail error_null error_val
  fail-Made f reason = bind _ λ _. bind _ λ _. returns none tt

  c2c_transform-Made :
      (f : FftwPlan) (e e' : FftwExtents) (x y : ℕ) (s : Sign) (flags : ℕ)
      → IsBegun i t from to src dst f
      → Yields (c2c_transform f e e' x y s flags) Made
  unfolding c2c_transform
  c2c_transform-Made f e e' x y s flags b = bind _ λ others.
      bind _ λ r. cases (λ _. fail-Made _ _) λ h. returns _ (with_transform f _ _ b, ground arith)

  c2c_reorder-Made :
      (f : FftwPlan) (l l' : Bool) (x y : ℕ) (s : Sign) (flags : ℕ)
      → IsBegun i t from to src dst f
      → Yields (c2c_reorder f l l' x y s flags) Made
  unfolding c2c_reorder error_null error_val
  c2c_reorder-Made f l l' x y s flags b =
      cases (λ _. c2c_transform-Made _ _ _ _ _ _ _ b)
        λ e.
          cases
            (λ _. bind _ λ p.
              cases (λ _. fail-Made _ _)
                λ _. c2c_transform-Made _ _ _ _ _ _ _ (with_postorder f p (ground arith) b))
            λ _.
              cases
                (λ _. bind _ λ p.
                  cases (λ _. fail-Made _ _)
                    λ _. c2c_transform-Made _ _ _ _ _ _ _ (with_preorder f p (ground arith) b))
                λ _. bind _ λ _. returns none tt

  c2r_postorder-Made :
      (f : FftwPlan) (x y flags : ℕ) → IsMade f → Yields (c2r_postorder f x y flags) Made
  unfolding c2r_postorder
  c2r_postorder-Made f x y flags b =
      cases
        (λ e. bind _ λ _. bind _ λ _. bind _ λ _. bind _ λ _. bind _ λ _.
          bind _ λ r. cases (λ _. fail-Made _ _) λ _. returns _ (with_postorder f _ e b.0, b.1))
        λ _. returns _ b

  c2r_transform-Made :
      (f : FftwPlan) (x y flags : ℕ)
      → IsBegun i t from to src dst f
      → Yields (c2r_transform f x y flags) Made
  unfolding c2r_transform
  c2r_transform-Made f x y flags b = bind _ λ others. bind _ λ r.
      cases (λ _. fail-Made _ _)
        λ h. c2r_postorder-Made _ _ _ _ (with_transform f _ _ b, ground arith)

  c2r_preorder-Made :
      (f : FftwPlan) (x y flags : ℕ)
      → IsBegun i t from to src dst f
      → Yields (c2r_preorder f x y flags) Made
  unfolding c2r_preorder
  c2r_preorder-Made f x y flags b =
      cases
        (λ e. bind _ λ _. bind _ λ _. bind _ λ _. bind _ λ _.
          bind _
            λ r. cases (λ _. fail-Made _ _) λ _. c2r_transform-Made _ _ _ _ (with_preorder f _ e b))
        λ _. c2r_transform-Made _ _ _ _ b

  r2c_postorder-Made :
      (f : FftwPlan) (x y flags : ℕ) → IsMade f → Yields (r2c_postorder f x y flags) Made
  unfolding r2c_postorder
  r2c_postorder-Made f x y flags b =
      cases
        (λ e. bind _ λ _.
          bind _ λ r. cases (λ _. fail-Made _ _) λ _. returns _ (with_postorder f _ e b.0, b.1))
        λ _. returns _ b

  r2c_transform-Made :
      (f : FftwPlan) (x y flags : ℕ)
      → IsBegun i t from to src dst f
      → Yields (r2c_transform f x y flags) Made
  unfolding r2c_transform
  r2c_transform-Made f x y flags b = bind _ λ others. bind _ λ r.
      cases (λ _. fail-Made _ _)
        λ h. r2c_postorder-Made _ _ _ _ (with_transform f _ _ b, ground arith)

module _ (l : ℤ) (src dst rigor : ℕ) (from to : FftwExtents) where
  pub c2c_internal-Made :
      (s : Sign)
      → Yields
          (c2c_internal l src dst s rigor from to)
          (Made (nonneg l) (type_of s) from to src dst)
  unfolding c2c_internal error_null error_val
  c2c_internal-Made s = bind _ λ k.
      passes (λ _. bind _ λ _. returns none tt)
        λ _.
          cases (λ _. bind _ λ _. returns none tt)
            λ _. bind _ λ m.
              cases (λ _. bind _ λ _. returns none tt)
                λ _. c2c_reorder-Made _ _ _ _ _ _ _ _ _ _ _ _ _ (initial-IsBegun _ _ _ _ _ _ m)

  pub c2r_internal-Made :
      Yields (c2r_internal l src dst rigor from to) (Made (nonneg l) c2r_backward from to src dst)
  unfolding c2r_internal error_null error_val
  c2r_internal-Made = bind _ λ k.
      passes (λ _. bind _ λ _. returns none tt)
        λ _. bind _ λ m.
          cases (λ _. bind _ λ _. returns none tt)
            λ _. c2r_preorder-Made _ _ _ _ _ _ _ _ _ _ (initial-IsBegun _ _ _ _ _ _ m)

  pub r2c_internal-Made :
      Yields (r2c_internal l src dst rigor from to) (Made (nonneg l) r2c_forward from to src dst)
  unfolding r2c_internal error_null error_val
  r2c_internal-Made = bind _ λ k.
      passes (λ _. bind _ λ _. returns none tt)
        λ _. bind _ λ m.
          cases (λ _. bind _ λ _. returns none tt)
            λ _. r2c_transform-Made _ _ _ _ _ _ _ _ _ _ (initial-IsBegun _ _ _ _ _ _ m)
