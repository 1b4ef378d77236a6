-- ===== src/Bench/Field/Silent.antt =====
-- What a comparison of a field passes over.
use underling.Common.{
  ℕ, zero, suc, ◌+◌, ◌/◌, ◌≤◌, ◌<◌, ◌≡◌, ◌⊎◌, inl, inr, refl, sym, ap, ◌∙◌, Bool, true, false,
  Option, arith, if◌then◌else◌,
}
use underling.Fftw.Defs.{FftwPlan}
use underling.Bench.Field.{Generator, Reals, check_loop, fill_field, check_field}
use underling.Bench.Field.Laws.{
  Documented, number_at, fill_loop-Agrees, seed_with-numbers, count_of-le,
}

-- What is documented of doubles: a random number, which is finite, differs from itself by zero, every
-- difference to a NaN is a NaN, and `fmax` returns its other argument for it.
pub record AreDoubles {V : Type 0} (reals : Reals V) (is_nan : V → Bool) : Type 0 where
  pub self :
      (number salt : ℕ)
      → reals.distance (reals.scaled_random number salt) (reals.scaled_random number salt)
        ≡ reals.zero_real
  pub distance_nan : (v v' : V) → is_nan v ≡ true → is_nan (reals.distance v v') ≡ true
  pub fmax_nan : (v v' : V) → is_nan v ≡ false → is_nan v' ≡ true → reals.fmax v v' ≡ v
  pub fmax_zero : reals.fmax reals.zero_real reals.zero_real ≡ reals.zero_real
  pub zero_number : is_nan reals.zero_real ≡ false

module _ {S V : Type 0} (g : Generator S) (reals : Reals V) (is_nan : V → Bool)
    (doubles : AreDoubles reals is_nan) where
  -- The elements from the `i`-th are no numbers or those that the generator would give now.
  abbrev AgreesOr : (salt n i : ℕ) → (ℕ → V) → S → Type 0
  AgreesOr salt n i p s =
      (j : ℕ)
      → j < n
      → (is_nan (p (i + j)) ≡ true) ⊎ (p (i + j) ≡ reals.scaled_random (number_at g j s) salt)

  silent_at :
      (v : V) (number salt : ℕ)
      → (is_nan v ≡ true) ⊎ (v ≡ reals.scaled_random number salt)
      → reals.fmax reals.zero_real (reals.distance v (reals.scaled_random number salt))
        ≡ reals.zero_real
  silent_at v number salt (inl e) =
      doubles.fmax_nan _ _ doubles.zero_number (doubles.distance_nan v _ e)
  silent_at v number salt (inr e) =
      let v' = reals.scaled_random number salt in
      ap (λ x. reals.fmax reals.zero_real (reals.distance x v')) e
      ∙ ap (reals.fmax reals.zero_real) (doubles.self number salt)
      ∙ doubles.fmax_zero

  check_loop-AgreesOr :
      (relevant : ℕ → Bool) (salt n i : ℕ) (p : ℕ → V) (s : S)
      → AgreesOr salt n i p s
      → (check_loop g reals relevant salt n i p reals.zero_real s).0 ≡ reals.zero_real
  unfolding check_loop
  check_loop-AgreesOr relevant salt zero i p s h = refl
  check_loop-AgreesOr relevant salt (suc n) i p s h =
      let (number, s') = g.random s in
      let v = reals.scaled_random number salt in
      let e0 : i + 0 ≡ i = omega arith in
      let first = silent_at (p i) number salt (rw e0 at (h 0 (omega arith))) in
      let kept : (if relevant i
            then reals.fmax reals.zero_real (reals.distance (p i) v)
            else reals.zero_real)
          ≡ reals.zero_real =
        ground (arith, first) in
      ap (λ (x : V). (check_loop g reals relevant salt n (suc i) p x s').0) kept
      ∙ check_loop-AgreesOr relevant salt n (suc i) p s'
          (λ j l. let e : suc i + j ≡ i + suc j = omega arith in rw e (h (suc j) (omega arith)))

  -- Where `fmax` returns its other argument for a value that is no number, a difference to one is none,
  -- and doubles and the generator do what else is documented of them: a field that was filled with a salt, and any elements of which have become no numbers since,
  -- is found without an error by a comparison with the same salt on the same rank, of as many elements
  -- or fewer, with or without a plan that says which elements count, whatever random numbers were
  -- drawn in between.
  pub check_field-overlooks :
      Documented g
      → (rank salt bytes bytes' state state' : ℕ) (plan : Option FftwPlan) (p q : ℕ → V) (s s' : S)
      → bytes' ≤ bytes
      → ((i : ℕ)
          → (is_nan (q i) ≡ true) ⊎ (q i ≡ (fill_field g reals rank bytes salt state p s).0 i))
      → (check_field g reals rank bytes' salt state' plan q s').0 ≡ reals.zero_real
  unfolding check_field fill_field
  check_field-overlooks doc rank salt bytes bytes' state state' plan p q s s' l lost =
      check_loop-AgreesOr _ salt _ 0 q _ λ j b. elim (lost (0 + j)) [
        | inl e ↦ inl e
        | inr e ↦ inr (
            e
            ∙ fill_loop-Agrees g reals salt (bytes / 8) 0 p _ j
                (omega (arith, count_of-le g reals doc plan (bytes' / 8)))
            ∙ ap (λ (x : ℕ). reals.scaled_random x salt)
                (seed_with-numbers g reals doc (rank + salt) state j s
                  ∙ sym (seed_with-numbers g reals doc (rank + salt) state' j s')))
      ]
