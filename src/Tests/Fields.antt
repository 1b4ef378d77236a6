-- ===== src/Tests/Fields.antt =====
-- A field of numbers, with a generator that counts from its seed.
use underling.Common.{
  ℕ, zero, suc, ◌+◌, ◌-◌, ◌≡◌, ◌==◌, ◌⊎◌, inl, inr, Bool, Bool-cases, true, false, ap, refl, ◌∙◌,
  ltb, none, arith, if◌then◌else◌,
}
use underling.Bench.Field.{Generator, Reals, fill_field, check_field}
use underling.Bench.Field.Laws.{Documented, number_at, fill_field-current}
use underling.Bench.Field.Silent.{AreDoubles, check_field-overlooks}

-- The buffer in use, and the next number.
abbrev counting : Generator (ℕ × ℕ)
counting = record {
  initstate = λ seed b s. (s.0, (b, seed));
  setstate = λ b s. (s.0, (b, s.1));
  random = λ s. (s.1, (s.0, s.1 + 1));
}

numbers : (n b x : ℕ) → number_at counting n (b, x) ≡ x + n
numbers zero b x = omega arith
numbers (suc n) b x = numbers n b (x + 1) ∙ omega arith

abbrev documented : Documented counting
documented = record {
  current = λ s. s.0;
  seeded = λ seed n. seed + n;
  initstate_uses = λ seed b s. refl;
  setstate_returns = λ b s. refl;
  setstate_uses = λ b s. refl;
  random_uses = λ s. refl;
  numbers = λ seed b n s. numbers n b seed;
}

abbrev naturals : Reals ℕ
naturals = record {
  zero_real = 0;
  scaled_random = λ n salt. n + salt;
  distance = λ a b. (a - b) + (b - a);
  fmax = λ a b. if ltb a b then b else a;
}

-- Naturals, an infinity, and a NaN.
data Double : Type 0 where
  finite : ℕ → Double
  infinity nan : Double

abbrev difference : Double → Double → Double
difference (finite a) (finite b) = finite ((a - b) + (b - a))
difference (finite a) infinity = infinity
difference (finite a) nan = nan
difference infinity (finite b) = infinity
difference infinity infinity = nan
difference infinity nan = nan
difference nan b = nan

abbrev larger : Double → Double → Double
larger (finite a) (finite b) = finite (if ltb a b then b else a)
larger (finite a) infinity = infinity
larger (finite a) nan = finite a
larger infinity b = infinity
larger nan b = b

abbrev doubles : Reals Double
doubles = record {
  zero_real = finite 0;
  scaled_random = λ n salt. finite (n + salt);
  distance = difference;
  fmax = larger;
}

abbrev is_nan : Double → Bool
is_nan (finite a) = false
is_nan infinity = false
is_nan nan = true

doubles-AreDoubles : AreDoubles doubles is_nan
doubles-AreDoubles = record {
  self = λ n salt. ap finite (omega arith);
  distance_nan = away;
  fmax_nan = other;
  fmax_zero = refl;
  zero_number = refl;
}
  where
    away : (v v' : Double) → is_nan v ≡ true → is_nan (difference v v') ≡ true
    away (finite a) v' e = absurd (cc)
    away infinity v' e = absurd (cc)
    away nan v' e = refl

    other : (v v' : Double) → is_nan v ≡ false → is_nan v' ≡ true → larger v v' ≡ v
    other (finite a) (finite b) n e = absurd (cc)
    other (finite a) infinity n e = absurd (cc)
    other (finite a) nan n e = refl
    other infinity v' n e = refl
    other nan v' n e = absurd (cc)

abbrev filled : ℕ → Double
filled = (fill_field counting doubles 2 64 1 60 (λ i. finite 5) (50, 0)).0

-- Of the eight elements the fourth is lost.
abbrev spoiled : ℕ → Double
spoiled i = if i == 3 then nan else filled i

check_field-overlooks_example :
    (check_field counting doubles 2 64 1 70 none spoiled (50, 9)).0 ≡ finite 0
check_field-overlooks_example =
    check_field-overlooks counting doubles is_nan doubles-AreDoubles documented 2 1 64 64 60 70 none
      (λ i. finite 5) spoiled (50, 0) (50, 9) (omega arith) lost
  where
    lost : (i : ℕ) → (is_nan (spoiled i) ≡ true) ⊎ (spoiled i ≡ filled i)
    lost i = elim (Bool-cases (i == 3)) [ inl e ↦ inl (rw e refl) | inr e ↦ inr (rw e refl) ]

fill_field-current_example : (fill_field counting naturals 2 64 1 60 (λ i. 5) (50, 0)).1.0 ≡ 60
fill_field-current_example =
    fill_field-current counting naturals documented 2 64 1 60 (λ i. 5) (50, 0)
