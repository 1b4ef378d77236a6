-- ===== src/Bench/Field/Laws.antt =====
-- What a comparison of a field finds.
use underling.Common.{
  ℕ, zero, suc, ◌+◌, ◌/◌, ◌≤◌, ◌<◌, ◌≡◌, refl, sym, ap, ◌∙◌, Bool, Option, none, some, arith,
  if◌then◌else◌,
}
use underling.Fftw.Defs.{FftwPlan}
use underling.Bench.Pass.{update}
use underling.Bench.Field.{
  Generator, Reals, fill_loop, check_loop, seed_with, fill_field, check_field, count_of,
}

-- The states that `n` numbers lead to, and the number after them.
module _ {S : Type 0} (g : Generator S) where
  abbrev pub later : ℕ → S → S
  later zero s = s
  later (suc n) s = later n (g.random s).1

  abbrev pub number_at : ℕ → S → ℕ
  number_at n s = (g.random (later n s)).0

  -- What is documented of the generator: which buffer is in use, which one was, and that the numbers
  -- depend on the seed alone.
  pub record Documented : Type 0 where
    pub current : S → ℕ
    pub seeded : (seed n : ℕ) → ℕ
    pub initstate_uses : (seed buffer : ℕ) (s : S) → current (g.initstate seed buffer s).1 ≡ buffer
    pub setstate_returns : (buffer : ℕ) (s : S) → (g.setstate buffer s).0 ≡ current s
    pub setstate_uses : (buffer : ℕ) (s : S) → current (g.setstate buffer s).1 ≡ buffer
    pub random_uses : (s : S) → current (g.random s).1 ≡ current s
    pub numbers :
        (seed buffer n : ℕ) (s : S)
        → number_at n (g.setstate buffer (g.initstate seed buffer s).1).1 ≡ seeded seed n

module _ {V : Type 0} (reals : Reals V) where
  pub record Metric : Type 0 where
    pub self :
        (number salt : ℕ)
        → reals.distance (reals.scaled_random number salt) (reals.scaled_random number salt)
          ≡ reals.zero_real
    pub fmax_zero : reals.fmax reals.zero_real reals.zero_real ≡ reals.zero_real

module _ {S V : Type 0} (g : Generator S) (reals : Reals V) where
  -- The elements from the `i`-th are those that the generator would give now.
  abbrev pub Agrees : (salt n i : ℕ) → (ℕ → V) → S → Type 0
  Agrees salt n i p s = (j : ℕ) → j < n → p (i + j) ≡ reals.scaled_random (number_at g j s) salt

  fill_loop-below :
      (salt n i k : ℕ) (p : ℕ → V) (s : S) → k < i → (fill_loop g reals salt n i p s).0 k ≡ p k
  unfolding fill_loop
  fill_loop-below salt zero i k p s l = refl
  fill_loop-below salt (suc n) i k p s l =
      let (number, s') = g.random s in
      fill_loop-below salt n (suc i) k (update p i (reals.scaled_random number salt)) s'
        (omega arith)
      ∙ ground arith

  pub fill_loop-Agrees :
      (salt n i : ℕ) (p : ℕ → V) (s : S) → Agrees salt n i (fill_loop g reals salt n i p s).0 s
  unfolding fill_loop
  fill_loop-Agrees salt zero i p s j l = absurd (omega arith)
  fill_loop-Agrees salt (suc n) i p s zero l =
      let (number, s') = g.random s in
      let q = update p i (reals.scaled_random number salt) in
      let e : i + 0 ≡ i = omega arith in
      rw e (fill_loop-below salt n (suc i) i q s' (omega arith) ∙ ground arith)
  fill_loop-Agrees salt (suc n) i p s (suc j) l =
      let e : i + suc j ≡ suc i + j = omega arith in
      rw e (fill_loop-Agrees salt n (suc i) _ _ j (omega arith))

  check_loop-Agrees :
      Metric reals
      → (relevant : ℕ → Bool) (salt n i : ℕ) (p : ℕ → V) (s : S) → Agrees salt n i p s
      → (check_loop g reals relevant salt n i p reals.zero_real s).0 ≡ reals.zero_real
  unfolding check_loop
  check_loop-Agrees m relevant salt zero i p s h = refl
  check_loop-Agrees m relevant salt (suc n) i p s h =
      let (number, s') = g.random s in
      let v = reals.scaled_random number salt in
      let e0 : i + 0 ≡ i = omega arith in
      let first : p i ≡ v = rw e0 at (h 0 (omega arith)) in
      let kept : (if relevant i
            then reals.fmax reals.zero_real (reals.distance (p i) v)
            else reals.zero_real)
          ≡ reals.zero_real =
        ground (arith, first, m.self number salt, m.fmax_zero) in
      ap (λ (x : V). (check_loop g reals relevant salt n (suc i) p x s').0) kept
      ∙ check_loop-Agrees m relevant salt n (suc i) p s'
          (λ j l. let e : suc i + j ≡ i + suc j = omega arith in rw e (h (suc j) (omega arith)))

  module _ (doc : Documented g) where
    open doc use {
      current, seeded, initstate_uses, setstate_returns, setstate_uses, random_uses, numbers,
    }

    pub seed_with-numbers :
        (seed state n : ℕ) (s : S)
        → number_at g n (seed_with g reals seed state s).1 ≡ seeded seed n
    unfolding seed_with
    seed_with-numbers seed state n s = numbers seed state n s

    pub count_of-le : (plan : Option FftwPlan) (n : ℕ) → count_of g reals plan n ≤ n
    unfolding count_of
    count_of-le none n = omega arith
    count_of-le (some f) n = ground arith

    -- A field that was filled with a salt is found without an error by a comparison with the same
    -- salt on the same rank, of as many elements or fewer, with or without a plan that says which
    -- elements count, whatever random numbers were drawn in between.
    pub check_field-fill_field :
        Metric reals
        → (rank salt bytes bytes' state state' : ℕ) (plan : Option FftwPlan) (p : ℕ → V) (s s' : S)
        → bytes' ≤ bytes
        → (check_field g reals rank bytes' salt state' plan
            (fill_field g reals rank bytes salt state p s).0
            s').0
          ≡ reals.zero_real
    unfolding check_field fill_field
    check_field-fill_field m rank salt bytes bytes' state state' plan p s s' l =
        check_loop-Agrees m _ salt _ 0 _ _ λ j b.
          fill_loop-Agrees salt (bytes / 8) 0 p _ j (omega (arith, count_of-le plan (bytes' / 8)))
          ∙ ap (λ (x : ℕ). reals.scaled_random x salt)
              (seed_with-numbers (rank + salt) state j s
                ∙ sym (seed_with-numbers (rank + salt) state' j s'))

    fill_loop-current :
        (salt n i : ℕ) (p : ℕ → V) (s : S) → current (fill_loop g reals salt n i p s).1 ≡ current s
    unfolding fill_loop
    fill_loop-current salt zero i p s = refl
    fill_loop-current salt (suc n) i p s = fill_loop-current salt n (suc i) _ _ ∙ random_uses s

    -- Filling a field leaves the generator with the array of the function, which is gone by then, and
    -- not with the buffer that it had before.
    pub fill_field-current :
        (rank bytes salt state : ℕ) (p : ℕ → V) (s : S)
        → current (fill_field g reals rank bytes salt state p s).1 ≡ state
    unfolding fill_field seed_with
    fill_field-current rank bytes salt state p s =
        setstate_uses _ _ ∙ setstate_returns state _ ∙ initstate_uses (rank + salt) state s
