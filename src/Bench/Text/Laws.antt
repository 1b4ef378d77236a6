-- ===== src/Bench/Text/Laws.antt =====
-- What `trim` and the byte counts do.
use mathlib.Core.List.{reverse, reverse-append, reverse-cons, reverse-reverse}
use underling.Common.{
  ℕ, ◌≡◌, refl, ap, ◌∙◌, Bool, true, false, ℤ, below, [], ◌∷◌, ◌++◌, some, arith, is_some,
}
use underling.Bench.Text.{
  Text, skip_blank, retreat, retreat_before, trim, to_human_readable_byte_count,
}

nothing : reverse {A = ℕ} [] ≡ []
nothing = refl

module _ (isspace : ℕ → Bool) where
  abbrev pub AllBlank : Text → Type 0
  AllBlank [] = Unit {0}
  AllBlank (c ∷ cs) = (isspace c ≡ true) × AllBlank cs

  -- A text that is empty or neither begins nor ends with a blank.
  abbrev pub StartsWell : Text → Type 0
  StartsWell [] = Unit {0}
  StartsWell (c ∷ cs) = isspace c ≡ false

  pub skip_blank-append :
      (bs cs : Text) → AllBlank bs → StartsWell cs → skip_blank isspace (bs ++ cs) ≡ cs
  unfolding skip_blank
  skip_blank-append [] [] a s = refl
  skip_blank-append [] (c ∷ cs) a s = rw s
  skip_blank-append (b ∷ bs) cs (a, as') s = rw a (skip_blank-append bs cs as' s)

  retreat-append :
      (bs : Text) (c : ℕ) (cs before : Text)
      → AllBlank bs
      → isspace c ≡ false
      → retreat isspace (bs ++ (c ∷ cs)) before ≡ some (reverse (c ∷ cs), before)
  unfolding retreat
  retreat-append [] c cs before a s = rw s
  retreat-append (b ∷ bs) c cs before (a, as') s = rw a (retreat-append bs c cs before as' s)

  AllBlank-append : (xs ys : Text) → AllBlank xs → AllBlank ys → AllBlank (xs ++ ys)
  AllBlank-append [] ys a b = b
  AllBlank-append (x ∷ xs) ys (a, as') b = (a, AllBlank-append xs ys as' b)

  AllBlank-reverse : (xs : Text) → AllBlank xs → AllBlank (reverse xs)
  AllBlank-reverse [] a = tt
  AllBlank-reverse (x ∷ xs) (a, as') =
      rw reverse-cons (AllBlank-append (reverse xs) (x ∷ []) (AllBlank-reverse xs as') (a, tt))

  StartsWell-append :
      (core : Text) (z : ℕ) (right : Text)
      → StartsWell (core ++ (z ∷ []))
      → StartsWell ((core ++ (z ∷ [])) ++ right)
  StartsWell-append [] z right s = s
  StartsWell-append (c ∷ cs) z right s = s

  -- A text within blanks is left alone, the blanks round it are dropped, and the memory before the
  -- text is not touched.
  trim-within :
      (before left right core : Text) (z : ℕ)
      → AllBlank left
      → AllBlank right
      → isspace z ≡ false
      → StartsWell (core ++ (z ∷ []))
      → trim isspace before (left ++ ((core ++ (z ∷ [])) ++ right))
        ≡ some (core ++ (z ∷ []), before)
  unfolding trim
  trim-within before left right core z al ar ez sc =
      let x = core ++ (z ∷ []) in
      let back : reverse x ≡ z ∷ reverse core = reverse-append core (z ∷ []) in
      rw (
        skip_blank-append left (x ++ right) al (StartsWell-append core z right sc),
        reverse-append x right,
        back,
        retreat-append (reverse right) z (reverse core) before (AllBlank-reverse right ar) ez,
        ← back,
        reverse-reverse,
      )

  pub skip_all : (s : Text) → AllBlank s → skip_blank isspace s ≡ []
  unfolding skip_blank
  skip_all [] a = refl
  skip_all (c ∷ cs) (a, as') = rw a (skip_all cs as')

  -- As many NULs as there are characters.
  abbrev pub cleared : Text → Text
  cleared [] = []
  cleared (c ∷ cs) = 0 ∷ cleared cs

  clears :
      (bs : Text) (c : ℕ) (rest : Text)
      → AllBlank bs
      → isspace c ≡ false
      → retreat_before isspace (bs ++ (c ∷ rest)) ≡ some (cleared bs ++ (c ∷ rest))
  unfolding retreat_before
  clears [] c rest a e = rw e
  clears (b ∷ bs) c rest (a, as') e = rw (a, clears bs c rest as' e)

  emptied :
      (before : Text) {m : Text}
      → retreat_before isspace before ≡ some m
      → retreat isspace (reverse []) before ≡ some ([], m)
  unfolding retreat
  emptied before e = ap (λ t. retreat isspace t before) nothing ∙ ground (arith, e)

  -- A text of blanks becomes empty, and the blanks in the memory before it are overwritten too.
  trim-blank :
      (a bs : Text) (c : ℕ) (rest : Text)
      → AllBlank a
      → AllBlank bs
      → isspace c ≡ false
      → trim isspace (bs ++ (c ∷ rest)) a ≡ some ([], cleared bs ++ (c ∷ rest))
  unfolding trim retreat
  trim-blank a bs c rest h b e = rw (skip_all a h) (emptied _ (clears bs c rest b e))

-- The units of a byte count are always found in the table, since the logarithm of a positive count
-- is not negative.
to_human-finds :
    {R : Type 0} (log_ratio : ℤ → ℕ → ℤ) (scaled_down : ℤ → ℕ → ℤ → R) (bytes : ℤ) (si : Bool)
    → ((unit : ℕ) → below bytes 1 ≡ false → below (log_ratio bytes unit) 0 ≡ false)
    → is_some (to_human_readable_byte_count log_ratio scaled_down bytes si) ≡ true
unfolding to_human_readable_byte_count
to_human-finds log_ratio scaled_down bytes si h = ground (arith, h 1000, h 1024)
