-- ===== src/Bench/Text.antt =====
-- `trim`, `to_human_readable_byte_count` and `from_human_readable_byte_count`. A text is the list of
-- its character codes without the NUL behind it; `isspace` and `toupper` are those of the C library.
pub mod Laws
pub mod Units
use underling.Common.{
  ℕ, ◌-◌, ◌/◌, ◌==◌, ltb, leb, ◌||◌, Bool, true, false, ℤ, pos, negsuc, below, nonneg, List, [],
  ◌∷◌, Option, none, some, String, if◌then◌else◌,
}
use mathlib.Core.List.{reverse}

abbrev pub Text : Type 0
Text = List ℕ

-- `*p` for a pointer into a text.
abbrev pub head_of : Text → ℕ
head_of [] = 0
head_of (c ∷ cs) = c

abbrev pub tail_of : Text → Text
tail_of [] = []
tail_of (c ∷ cs) = cs

module _ (isspace : ℕ → Bool) where
  -- `while (isspace(*b)) ++b`.
  unfoldable pub skip_blank : Text → Text
  skip_blank [] = []
  skip_blank (c ∷ cs) = if isspace c then skip_blank cs else c ∷ cs

  -- The last loop of `trim` where it has gone back beyond the start of the text: it overwrites the
  -- blanks of the memory before it, the nearest first, and a read beyond that is a fault.
  unfoldable pub retreat_before : Text → Option Text
  retreat_before [] = none
  retreat_before (c ∷ cs) =
      if isspace c
      then (elim (retreat_before cs) [ none ↦ none | some m ↦ some (0 ∷ m) ])
      else some (c ∷ cs)

  -- The last loop of `trim`, over the text from its end.
  unfoldable pub retreat : (text before : Text) → Option (Text × Text)
  retreat [] before = elim (retreat_before before) [ none ↦ none | some m ↦ some ([], m) ]
  retreat (c ∷ cs) before = if isspace c then retreat cs before else some (reverse (c ∷ cs), before)

  -- `trim`: the text, and the memory before it.
  unfoldable pub trim : (before a : Text) → Option (Text × Text)
  unfolding retreat retreat_before skip_blank
  trim before a = retreat (reverse (skip_blank a)) before

-- `suffix[exp][!!si]`.
unfoldable pub suffix : (exp : ℕ) (si : Bool) → Option String
suffix exp si =
    if exp == 0
    then some (if si then "B" else "B")
    else if exp == 1
    then some (if si then "KiB" else "kB")
    else if exp == 2
    then some (if si then "MiB" else "MB")
    else if exp == 3
    then some (if si then "GiB" else "GB")
    else if exp == 4
    then some (if si then "TiB" else "TB")
    else if exp == 5
    then some (if si then "EiB" else "EB")
    else if exp == 6
    then some (if si then "ZiB" else "ZB")
    else if exp == 7
    then some (if si then "YiB" else "YB")
    else none

abbrev pub less : ℤ → ℤ → Bool
less (pos a) (pos b) = ltb a b
less (pos a) (negsuc b) = false
less (negsuc a) (pos b) = true
less (negsuc a) (negsuc b) = ltb b a

-- `min`.
abbrev pub min : ℤ → ℤ → ℤ
min a b = if less a b then a else b

-- `(int) (log(bytes) / log(unit))` is `log_ratio`, and `bytes / pow(unit, exp)` is `scaled_down`. The
-- coefficient and the units; `none` is a read outside the table.
unfoldable pub to_human_readable_byte_count :
    {R : Type 0} (log_ratio : ℤ → ℕ → ℤ) (scaled_down : ℤ → ℕ → ℤ → R)
    → ℤ
    → Bool
    → Option (R × String)
unfolding suffix
to_human_readable_byte_count log_ratio scaled_down bytes si =
    let unit : ℕ = if si then 1000 else 1024 in
    let exp = if below bytes 1 then pos 0 else min (log_ratio bytes unit) (pos 7) in
    elim exp [
      | negsuc _ ↦ none
      | pos e ↦ elim (suffix e si) [
        | none ↦ none
        | some u ↦ some (scaled_down bytes unit (pos e), u)
      ]
    ]

-- What the first letter behind the number says.
pub data Prefix : Type 0 where
  exponent : ℕ → Prefix
  ended malformed : Prefix

unfoldable pub read_prefix : ℕ → Prefix
read_prefix c =
    if c == b'B'
    then exponent 0
    else if c == b'K'
    then exponent 3
    else if c == b'M'
    then exponent 6
    else if c == b'G'
    then exponent 9
    else if c == b'T'
    then exponent 12
    else if c == b'E'
    then exponent 15
    else if c == b'Z'
    then exponent 18
    else if c == b'Y'
    then exponent 21
    else if c == b' ' || c == 9 || c == 0
    then ended
    else malformed

module _ (isspace : ℕ → Bool) (toupper : ℕ → ℕ) where
  -- What may follow the unit.
  unfoldable pub ends_well : Text → Bool
  unfolding skip_blank
  ends_well rest =
      let c = toupper (head_of rest) in
      if c == b'B' || c == b' ' || c == 9
      then head_of (skip_blank isspace (tail_of rest)) == 0
      else c == 0

  -- The text behind the number: the exponent of ten and the unit, if it is well formed.
  unfoldable pub read_unit : Text → Option (ℕ × ℕ)
  unfolding ends_well skip_blank read_prefix
  read_unit rest =
      let r = skip_blank isspace rest in
      elim (read_prefix (toupper (head_of r))) [
        | malformed ↦ none
        | ended ↦ some (0, 1024)
        | exponent e ↦
            let r1 = tail_of r in
            let si = toupper (head_of r1) == b'I' in
            let r2 = if si then tail_of r1 else r1 in
            if ends_well r2 then some (e, if si then 1000 else 1024) else none
      ]

  -- `strtod` gives the number and the rest of the text, or sets `errno`; `product` is
  -- `coeff * pow(unit, k)` and `truncated` is `coeff`, both as a `long`.
  unfoldable pub from_human_readable_byte_count :
      {R : Type 0} (strtod : Text → Option (R × Text)) (product : R → ℕ → ℕ → ℤ) (truncated : R → ℤ)
      → Text
      → ℤ
  unfolding read_unit
  from_human_readable_byte_count strtod product truncated str = elim (strtod str) [
    | none ↦ negsuc 0
    | some (coeff, rest) ↦ elim (read_unit rest) [
      | none ↦ negsuc 0
      | some (e, unit) ↦ if e == 0 then truncated coeff else product coeff unit (e / 3)
    ]
  ]
