-- ===== src/Exchange/Restores.antt =====
-- What moves through the transposes of a problem and back.
use mathlib.Core.Path.{subst}
use underling.Common.{ℕ, ◌≡◌, refl, sym, ◌⊎◌, inl, inr, ℤ, nonneg, Bool-cases, Option, none, some}
use underling.Machine.{World, FftwConstants, Reply, ok}
use underling.Extents.Defs.{Extents}
use underling.Grid.Defs.{Grid}
use underling.Transpose.Defs.{Transpose}
use underling.Transpose.Inverse.{AreBits, IsTransposed}
use underling.Problem.Defs.{Problem, has_flag, transposed_long_n2, transposed_long_n0, laid_out}
use underling.Problem.Create.{create}
use underling.Exchange.Defs.{Shape, shape_of, Contents, Exchanges}
use underling.Exchange.RoundTrip.{Restored, inverted, exchange-inverted, exchange-restores}
use underling.Exchange.Shapes.{shape?, shape_a, shape_b}
use underling.Exchange.Creation.{Answers, create-Made}

some-injective : {A : Type 0} {x y : A} → some x ≡ some y → x ≡ y
some-injective h = cc

pub same_shape :
    {t : Transpose} {o : Option Transpose} {s : Shape}
    → shape? o ≡ some s
    → o ≡ some t
    → s ≡ shape_of t
same_shape {o = none} h i = absurd (cc)
same_shape {o = some u} h i = cc

abbrev OneFlag : (k : FftwConstants) → Extents → Extents → Extents → Shape → Shape → Type 0
OneFlag k e0 e1 e2 a b = IsTransposed k a.flags × IsTransposed k b.flags

one_flag :
    (k : FftwConstants) (g : Grid) (p : Problem) (flags : ℕ) (ra rb : Reply)
    → OneFlag k p.long_n0 p.long_n1 p.long_n2 (shape_a k g p flags ra) (shape_b k g p flags rb)
one_flag k g p flags ra rb = (
  elim (Bool-cases (has_flag flags transposed_long_n2)) [
    | inl e ↦ rw e (inr (inl refl))
    | inr e ↦ rw e (inl refl)
  ],
  elim (Bool-cases (has_flag flags transposed_long_n0)) [
    | inl e ↦ rw e (inr (inr refl))
    | inr e ↦ rw e (inl refl)
  ],
)

-- The two transposes of a problem that wave towards physical, or physical towards wave, move along the
-- same communicator.
abbrev pub ArePaired : Problem → (there back : Transpose) → Type 0
ArePaired p t u =
    ((p.backward_a ≡ some t) × (p.forward_a ≡ some u))
    ⊎ ((p.backward_b ≡ some t) × (p.forward_b ≡ some u))

-- The second of them is the inverse of the first.
pub create-inverts :
    {V : Type 0} (g : Grid) (howmany : ℤ) (flags : ℕ) (w w' : World) (p : Problem) (t u : Transpose)
    (between behind : Contents V)
    → AreBits w.env.fftw
    → create (some g) howmany flags w ≡ ok (some p) w'
    → ArePaired p t u
    → Exchanges w.env.fftw (shape_of u) between behind
    → Exchanges w.env.fftw (shape_of t) behind between
create-inverts g howmany flags w w' p t u between behind bits h paired back =
    let k = w.env.fftw in
    let known : Answers w.env g (nonneg howmany) flags (λ _. Unit {0}) (λ _. Unit {0})
        (λ _. Unit {0}) (λ _. Unit {0}) =
      record { share_b = λ t. tt; share_a = λ t. tt; sent_a = λ t x y. tt; sent_b = λ t x y. tt } in
    let (a, b, have, (one_a, one_b)) =
      ((create-Made w.env (OneFlag k) g howmany flags (λ _. Unit {0}) (λ _. Unit {0})
          (λ _. Unit {0}) (λ _. Unit {0}) known
          λ i lB lA ra rb _ _ _ _.
            one_flag k g (laid_out i g (nonneg howmany) flags lB lA) flags ra rb).run
        w w' (some p) refl h).0 in
    elim paired [
      | inl e ↦
          let x = same_shape have.backward_a e.0 in
          let y = same_shape have.forward_a e.1 in inverse x y one_a
      | inr e ↦
          let x = same_shape have.backward_b e.0 in
          let y = same_shape have.forward_b e.1 in inverse x y one_b
    ]
  where
    inverse :
        {s : Shape}
        → s ≡ shape_of t
        → inverted w.env.fftw s ≡ shape_of u
        → IsTransposed w.env.fftw s.flags
        → Exchanges w.env.fftw (shape_of t) behind between
    inverse {s} x y one =
        subst (λ s. Exchanges w.env.fftw s behind between) x
          (exchange-inverted w.env.fftw s bits one
            (subst (λ s. Exchanges w.env.fftw s between behind) (sym y) back))

-- Where FFTW's two flags are bits of their own and its transposes do what is documented of
-- them: what moves through a backward transpose of a problem that is created, and then through
-- the forward transpose of the same communicator, is again where it was, in all processes.
pub create-restores :
    {V : Type 0} (g : Grid) (howmany : ℤ) (flags : ℕ) (w w' : World) (p : Problem) (t u : Transpose)
    (before between behind : Contents V)
    → AreBits w.env.fftw
    → create (some g) howmany flags w ≡ ok (some p) w'
    → ArePaired p t u
    → Exchanges w.env.fftw (shape_of t) before between
    → Exchanges w.env.fftw (shape_of u) between behind
    → Restored w.env.fftw (shape_of t) before behind
create-restores g howmany flags w w' p t u before between behind bits h paired there back =
    exchange-restores w.env.fftw (shape_of t) there
      (create-inverts g howmany flags w w' p t u between behind bits h paired back)
