-- ===== src/Bench/Text/Units.antt =====
-- What a number of bytes with a unit behind it is read as.
use underling.Common.{
  ℕ, zero, suc, ◌*◌, ◌≡◌, refl, ◌==◌, ◌/◌, Bool, true, false, ℤ, [], ◌∷◌, ◌++◌, Option, none, some,
  arith, is_some, if◌then◌else◌,
}
use underling.Bench.Text.{
  Text, ends_well, read_unit, read_prefix, exponent, from_human_readable_byte_count,
}
use underling.Bench.Text.Laws.{AllBlank, skip_blank-append, skip_all}

-- The `i` of a unit, where it has one.
abbrev pub marked : Option ℕ → Text
marked none = []
marked (some i) = i ∷ []

-- The letters of the powers of a unit, from the power 0.
abbrev pub letters : Text
letters = b'B' ∷ b'K' ∷ b'M' ∷ b'G' ∷ b'T' ∷ b'E' ∷ b'Z' ∷ b'Y' ∷ []

abbrev pub Stands : Text → (place letter : ℕ) → Type 0
Stands [] k c = ⊥
Stands (x ∷ xs) zero c = c ≡ x
Stands (x ∷ xs) (suc k) c = Stands xs k c

prefix_of : (k c : ℕ) → Stands letters k c → read_prefix c ≡ exponent (3 * k)
unfolding read_prefix
prefix_of zero c h = rw h refl
prefix_of (suc zero) c h = rw h refl
prefix_of (suc (suc zero)) c h = rw h refl
prefix_of (suc (suc (suc zero))) c h = rw h refl
prefix_of (suc (suc (suc (suc zero)))) c h = rw h refl
prefix_of (suc (suc (suc (suc (suc zero))))) c h = rw h refl
prefix_of (suc (suc (suc (suc (suc (suc zero)))))) c h = rw h refl
prefix_of (suc (suc (suc (suc (suc (suc (suc zero))))))) c h = rw h refl
prefix_of (suc (suc (suc (suc (suc (suc (suc (suc k)))))))) c h = absurd h

module _ (isspace : ℕ → Bool) (toupper : ℕ → ℕ) where
  abbrev pub IsMark : Option ℕ → Type 0
  IsMark none = Unit {0}
  IsMark (some i) = toupper i ≡ b'I'

  -- A unit: blanks, the letter of a power, an `i` or none, a B, and blanks.
  pub record IsUnit (left : Text) (letter : ℕ) (mark : Option ℕ) (b : ℕ) (right : Text) (k : ℕ)
      : Type 0 where
    pub left_blank : AllBlank isspace left
    pub right_blank : AllBlank isspace right
    pub letter_visible : isspace letter ≡ false
    pub letter_of_power : Stands letters k (toupper letter)
    pub mark_i : IsMark mark
    pub b_byte : toupper b ≡ b'B'

  module _ {left : Text} {letter : ℕ} {mark : Option ℕ} {b : ℕ} {right : Text} {k : ℕ}
      (u : IsUnit left letter mark b right k) where
    ends : ends_well isspace toupper (b ∷ right) ≡ true
    unfolding ends_well
    ends = rw (u.b_byte, skip_all isspace right u.right_blank) refl

    reads :
        (m : Option ℕ)
        → IsMark m
        → read_unit isspace toupper (left ++ (letter ∷ (marked m ++ (b ∷ right))))
          ≡ some (3 * k, if is_some m then 1000 else 1024)
    unfolding read_unit
    reads none h =
        let skipped =
          skip_blank-append isspace left (letter ∷ (b ∷ right)) u.left_blank u.letter_visible in
        ground (arith, skipped, prefix_of k (toupper letter) u.letter_of_power, u.b_byte, ends)
    reads (some i) h =
        let skipped =
          skip_blank-append isspace left (letter ∷ (i ∷ (b ∷ right))) u.left_blank
            u.letter_visible in
        ground (arith, skipped, prefix_of k (toupper letter) u.letter_of_power, u.b_byte, h, ends)

    -- Where strtod leaves blanks, the letter in place k of BKMGTEZY, an `i` or none, a B, and blanks
    -- behind a number, the text is read as the number times the k-th power of 1000 where there is
    -- an `i`, and of 1024 where there is none, and as the truncated number where k is 0.
    pub from_human-reads :
        {R : Type 0} (strtod : Text → Option (R × Text)) (product : R → ℕ → ℕ → ℤ)
        (truncated : R → ℤ) (str : Text) (number : R)
        → strtod str ≡ some (number, left ++ (letter ∷ (marked mark ++ (b ∷ right))))
        → from_human_readable_byte_count isspace toupper strtod product truncated str ≡ (
            if k == 0
            then truncated number
            else product number (if is_some mark then 1000 else 1024) k)
    unfolding from_human_readable_byte_count
    from_human-reads strtod product truncated str number h =
        let third : 3 * k / 3 ≡ k = omega arith in
        let zero_power : (3 * k == 0) ≡ (k == 0) = ground arith in
        rw (from_human_readable_byte_count, h, reads mark u.mark_i, third, zero_power) refl
