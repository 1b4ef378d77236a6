-- ===== src/FftwExtents/Rotate.antt =====
-- When the loop that rotates the order ends.
use underling.Common.{
  ℕ, zero, suc, ◌+◌, ◌≤◌, ◌≡◌, refl, sym, ◌⊎◌, inl, inr, Bool, false, true, ℤ, none, some, arith,
  List, [], ◌∷◌, ◌++◌, Bool-cases, ◌∙◌,
}
use underling.Extents.Defs.{Four}
use underling.FftwExtents.Defs.{shift, rotate_left, rotate_order, is, rotate_until}

shift-append : (t x : ℕ) (xs : List ℕ) → shift t (x ∷ xs) ≡ xs ++ t ∷ []
unfolding shift
shift-append t x [] = refl
shift-append t x (y ∷ r) = rw (shift-append t y r)

-- The first element goes behind the others.
pub rotate_left-append : (x : ℕ) (xs : List ℕ) → rotate_left (x ∷ xs) ≡ xs ++ x ∷ []
unfolding rotate_left
rotate_left-append x xs = shift-append x x xs

-- Without the direction among the last three entries no number of rounds is enough: the loop
-- of the source does not end.
pub rotate_until_endless :
    (fuel : ℕ) (long_ni : ℤ) (o : Four) (n : ℕ)
    → is long_ni o.i1 ≡ false
    → is long_ni o.i2 ≡ false
    → is long_ni o.i3 ≡ false
    → rotate_until fuel long_ni o n ≡ none
unfolding rotate_until rotate_order rotate_left shift
rotate_until_endless zero long_ni o n h1 h2 h3 = refl
rotate_until_endless (suc fuel) long_ni o n h1 h2 h3 =
    rw h1 (rotate_until_endless fuel long_ni _ (n + 1) h2 h3 h1)

-- A round that finds the direction ends the loop, any other one turns the order.
pub found :
    (fuel : ℕ) (l : ℤ) (o : Four) (n : ℕ)
    → is l o.i1 ≡ true
    → rotate_until (suc fuel) l o n ≡ some (o, n)
unfolding rotate_until
found fuel l o n h = rw h refl

pub turned :
    (fuel : ℕ) (l : ℤ) (o : Four) (n : ℕ)
    → is l o.i1 ≡ false
    → rotate_until (suc fuel) l o n ≡ rotate_until fuel l (rotate_order o) (n + 1)
unfolding rotate_until
turned fuel l o n h = rw h refl

pub third :
    (a b c : Bool) → (a ≡ true) ⊎ ((b ≡ true) ⊎ (c ≡ true)) → a ≡ false → b ≡ false → c ≡ true
third a b c (inl h) h1 h2 = absurd (cc)
third a b c (inr (inl h)) h1 h2 = absurd (cc)
third a b c (inr (inr h)) h1 h2 = h

-- With it among them three rounds are enough: the direction then stands second, the first entry is
-- where it was, and the order went round at most twice.
pub rotate_until_ends :
    (fuel : ℕ) (l : ℤ) (o : Four)
    → (is l o.i1 ≡ true) ⊎ ((is l o.i2 ≡ true) ⊎ (is l o.i3 ≡ true))
    → (p : Four) × (n : ℕ) × (rotate_until (suc (suc (suc fuel))) l o 0 ≡ some (p, n))
      × (n ≤ 2)
      × (is l p.i1 ≡ true)
      × (p.i0 ≡ o.i0)
unfolding rotate_order rotate_left shift
rotate_until_ends fuel l o d = elim (Bool-cases (is l o.i1)) [
  | inl h1 ↦ (o, 0, found _ l o 0 h1, omega arith, h1, refl)
  | inr h1 ↦ elim (Bool-cases (is l o.i2)) [
    | inl h2 ↦ (
      rotate_order o,
      1,
      turned _ l o 0 h1 ∙ found _ l (rotate_order o) 1 h2,
      omega arith,
      h2,
      refl,
    )
    | inr h2 ↦
        let h3 = third (is l o.i1) (is l o.i2) (is l o.i3) d h1 h2 in
        (
          rotate_order (rotate_order o),
          2,
          turned _ l o 0 h1
              ∙ (turned _ l (rotate_order o) 1 h2 ∙ found _ l (rotate_order (rotate_order o)) 2 h3),
          omega arith,
          h3,
          refl,
        )
  ]
]

-- Three rounds find what any larger number of rounds finds.
pub rotate_until-settles :
    (fuel : ℕ) (l : ℤ) (o : Four) → rotate_until (suc (suc (suc fuel))) l o 0 ≡ rotate_until 3 l o 0
unfolding rotate_order rotate_left shift
rotate_until-settles fuel l o = elim (Bool-cases (is l o.i1)) [
  | inl h1 ↦ found _ l o 0 h1 ∙ sym (found 2 l o 0 h1)
  | inr h1 ↦ elim (Bool-cases (is l o.i2)) [
    | inl h2 ↦
        let at = λ (k : ℕ). turned (suc k) l o 0 h1 ∙ found k l (rotate_order o) 1 h2 in
        at (suc fuel) ∙ sym (at 1)
    | inr h2 ↦ elim (Bool-cases (is l o.i3)) [
      | inl h3 ↦
          let at = λ (k : ℕ).
            turned (suc (suc k)) l o 0 h1
            ∙ turned (suc k) l (rotate_order o) 1 h2
            ∙ found k l (rotate_order (rotate_order o)) 2 h3 in
          at fuel ∙ sym (at 0)
      | inr h3 ↦ rotate_until_endless _ l o 0 h1 h2 h3 ∙ sym (rotate_until_endless 3 l o 0 h1 h2 h3)
    ]
  ]
]
