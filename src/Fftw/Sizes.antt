-- ===== src/Fftw/Sizes.antt =====
-- The two layouts of a complex transform describe the same part of the domain.
use underling.Common.{
  ℕ, zero, suc, ◌+◌, ◌≡◌, refl, sym, ap, ◌∙◌, Bool-cases, inl, inr, ℤ, String, Option, none, some,
}
use underling.Machine.{World, ok}
use underling.Machine.Yields.{Yields, returns, halts, bind, after, cases}
use underling.Machine.At.{weaken}
use underling.Error.{Status, error_null, error_val}
use underling.Extents.Defs.{Four, Extents}
use underling.Problem.Defs.{Problem}
use underling.FftwExtents.Defs.{
  FftwExtents, invalid, rotate_left, shift, rotate_order, is, rotate_until, rotated, adjust, pack,
  complex_layout, check_layout, or_invalid, for_complex,
}
use underling.FftwExtents.Rotate.{found, turned}
use underling.Fftw.Defs.{FftwPlan}
use underling.Fftw.Complex.{Sign}
use underling.Fftw.Create.{with_packing, create_c2c}
use underling.Fftw.Made.{Made, c2c_internal-Made}

some-injective : {A : Type 0} {a b : A} → some a ≡ some b → a ≡ b
some-injective h = cc

-- The rounds leave the first entry where it is.
rotate_until-first :
    (fuel : ℕ) (l : ℤ) (o p : Four) (n m : ℕ) → rotate_until fuel l o n ≡ some (p, m) → p.i0 ≡ o.i0
unfolding rotate_until rotate_order rotate_left shift
rotate_until-first zero l o p n m h = absurd (cc)
rotate_until-first (suc fuel) l o p n m h = elim (Bool-cases (is l o.i1)) [
  | inl e ↦ ap (λ x. x.0.i0) (some-injective (sym h ∙ found fuel l o n e))
  | inr e ↦ rotate_until-first fuel l (rotate_order o) p (n + 1) m (sym (turned fuel l o n e) ∙ h)
]

-- What the adjustment keeps.
abbrev Kept : Extents → Extents → Type 0
Kept e a = (a.size ≡ e.size) × (a.start ≡ e.start) × (a.order.i0 ≡ e.order.i0)

rotated-Kept :
    (e : Extents) (o : Option (Four × ℕ))
    → ((p : Four) (m : ℕ) → o ≡ some (p, m) → p.i0 ≡ e.order.i0)
    → Yields (rotated e o) (λ a. Kept e a.0)
unfolding rotated
rotated-Kept e none h = halts _
rotated-Kept e (some (p, m)) h =
    cases (λ _. returns _ (refl, refl, refl)) λ _. bind _ λ _. returns _ (refl, refl, h p m refl)

adjust-Kept : (e : Extents) (l : ℤ) → Yields (adjust e l) (λ a. Kept e a.0)
unfolding adjust
adjust-Kept e l = rotated-Kept e _ λ p m. rotate_until-first 3 l e.order p 0 m

-- What a check of a layout decides on.
abbrev chosen : Option (String × Status) → Extents → FftwExtents
chosen none e = complex_layout e
chosen (some _) e = invalid

or_invalid-chosen :
    (o : Option (String × Status)) (e : Extents)
    → Yields (or_invalid o (λ w. ok (complex_layout e) w)) (λ f. f ≡ chosen o e)
unfolding or_invalid error_val
or_invalid-chosen none e = returns _ refl
or_invalid-chosen (some (reason, s)) e = bind _ λ _. returns _ refl

for_complex-chosen :
    (e : Extents) (l : ℤ) → Yields (for_complex e l) (λ f. f ≡ chosen (check_layout e l) e)
unfolding for_complex
for_complex-chosen e l = or_invalid-chosen _ e

check_layout-Kept : (e a : Extents) (l : ℤ) → Kept e a → check_layout a l ≡ check_layout e l
unfolding check_layout
check_layout-Kept e a l k = rw (k.0, k.1, k.2) refl

-- The layouts have the same start and the same size.
abbrev Same : FftwExtents → FftwExtents → Type 0
Same x y = (x.start ≡ y.start) × (x.size ≡ y.size)

chosen-Same :
    (o : Option (String × Status)) (e a : Extents) → Kept e a → Same (chosen o e) (chosen o a)
unfolding complex_layout
chosen-Same none e a k = (rw (k.1) refl, rw (k.0) refl)
chosen-Same (some _) e a k = (refl, refl)

both_chosen :
    (e a : Extents) (i : ℤ) (from to : FftwExtents)
    → from ≡ chosen (check_layout e i) e
    → to ≡ chosen (check_layout a i) a
    → Kept e a
    → Same from to
both_chosen e a i from to h h' k =
    rw (h, h', check_layout-Kept e a i k) (chosen-Same (check_layout e i) e a k)

abbrev SameOf : Option FftwPlan → Type 0
SameOf none = Unit
SameOf (some f) = Same f.input f.output

Made-SameOf :
    (i : ℕ) (t : _) (from to : FftwExtents) (src dst : ℕ) (o : Option FftwPlan)
    → Same from to
    → Made i t from to src dst o
    → SameOf o
Made-SameOf i t from to src dst none s m = tt
Made-SameOf i t from to src dst (some f) s m = rw (m.0.reads, m.0.writes) s

create_c2c-SameOf :
    (s : Sign) (p : Option Problem) (i : ℤ) (src dst rigor flags : ℕ)
    → Yields (create_c2c s p i src dst rigor flags) SameOf
unfolding create_c2c with_packing pack error_null error_val
create_c2c-SameOf s p i src dst rigor flags = bind _ λ e. after (for_complex-chosen e i) λ from h.
    after (adjust-Kept e i) λ a k. after (for_complex-chosen a.0 i) λ to h'.
      let q = both_chosen e a.0 i from to h h' k in
      cases
        (λ _.
          cases (λ _. bind _ λ _. returns none tt)
            λ _.
              weaken (c2c_internal-Made i src dst rigor from _ s) λ o. Made-SameOf _ _ _ _ _ _ o q)
        λ _. weaken (c2c_internal-Made i src dst rigor from to s) λ o. Made-SameOf _ _ _ _ _ _ o q

-- The input and the output layout of a complex transform that is created have the same start and
-- the same size in every direction.
pub create_c2c_same_sizes :
    (s : Sign) (p : Option Problem) (i : ℤ) (src dst rigor flags : ℕ) (w w' : World) (f : FftwPlan)
    → create_c2c s p i src dst rigor flags w ≡ ok (some f) w'
    → (f.input.start ≡ f.output.start) × (f.input.size ≡ f.output.size)
create_c2c_same_sizes s p i src dst rigor flags w w' f =
    (create_c2c-SameOf s p i src dst rigor flags).run w w' (some f)
