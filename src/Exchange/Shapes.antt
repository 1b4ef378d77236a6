-- ===== src/Exchange/Shapes.antt =====
-- The arguments of the four transposes of a problem that is created.
use underling.Common.{ℕ, ◌*◌, ◌≡◌, refl, String, Option, none, some, if◌then◌else◌}
use underling.Machine.{Env, Reply, FftwConstants}
use underling.Machine.Yields.{Yields, returns, bind, cases, anything}
use underling.Machine.Ensures.{Ensures, kept, kept_at, implied, any_resource, then_}
use underling.Error.{efailed, error_null, error_val}
use underling.Error.Ensures.{refuses}
use underling.Grid.Defs.{Grid}
use underling.Transpose
use underling.Transpose.Defs.{
  Transpose, fix_local, without_local, with_local, workspace, create_inverse,
}
use underling.Transpose.Accounts as transposes
use underling.Transpose.Inverse.{Inverts, create_inverse-Inverts}
use underling.Problem.Defs.{Problem, has_flag, transposed_long_n2, transposed_long_n0}
use underling.Problem.Accounts as problems
use underling.Problem.Create.{require}
use underling.Exchange.Defs.{Shape, shape_of}
use underling.Exchange.RoundTrip.{inverted}

abbrev pub shape? : Option Transpose → Option Shape
shape? none = none
shape? (some t) = some (shape_of t)

-- The transposes of a problem: two, and their inverses.
pub record HasTransposes (k : FftwConstants) (a b : Shape) (p : Problem) : Type 0 where
  pub backward_a : shape? p.backward_a ≡ some a
  pub backward_b : shape? p.backward_b ≡ some b
  pub forward_b : shape? p.forward_b ≡ some (inverted k b)
  pub forward_a : shape? p.forward_a ≡ some (inverted k a)

abbrev pub shape_a : FftwConstants → Grid → Problem → (flags : ℕ) → Reply → Shape
shape_a k g p flags r = record {
  d0 = p.long_n2.size.i0 * g.n1;
  d1 = g.n2;
  howmany = p.howmany;
  block0 = r.out 0;
  block1 = r.out 1;
  flags = if has_flag flags transposed_long_n2 then k.transposed_in else 0;
}

abbrev pub shape_b : FftwConstants → Grid → Problem → (flags : ℕ) → Reply → Shape
shape_b k g p flags r = record {
  d0 = p.long_n1.size.i2 * g.n0;
  d1 = g.n1;
  howmany = p.howmany;
  block0 = r.out 0;
  block1 = r.out 1;
  flags = if has_flag flags transposed_long_n0 then k.transposed_out else 0;
}

abbrev pub Shaped : Shape → Option Transpose → Type 0
Shaped s none = Unit {0}
Shaped s (some t) = shape_of t ≡ s

fix_local-Shaped :
    (s : Shape) (t : Transpose) (reason : String)
    → shape_of t ≡ s
    → Yields (fix_local t reason) (Shaped s)
unfolding fix_local error_null error_val without_local with_local
fix_local-Shaped s t reason i =
    cases (λ _. bind _ λ _. bind _ λ _. returns none tt)
      λ _. cases (λ _. returns _ i) λ _. bind _ λ r. returns _ i

inverts :
    (k : FftwConstants) (t : Transpose) (v : Option Transpose)
    → Inverts k t v
    → Shaped (inverted k (shape_of t)) v
inverts k t none h = tt
inverts k t (some u) (h0, h1, h2, h3, h4, h5) =
    λ i. record { d0 = h0 i; d1 = h1 i; howmany = h2 i; block0 = h3 i; block1 = h4 i; flags = h5 i }

module _ {e : Env} where
  pub create-Shaped :
      (d0 d1 howmany block0 block1 c flags : ℕ)
      → Ensures e (Transpose.Defs.create d0 d1 howmany block0 block1 c flags) (
          Shaped (record {
            d0 = d0;
            d1 = d1;
            howmany = howmany;
            block0 = block0;
            block1 = block1;
            flags = flags;
          }))
  unfolding Transpose.Defs.create workspace error_null error_val
  create-Shaped d0 d1 howmany block0 block1 c flags =
      kept (transposes.create-Spends any_resource d0 d1 howmany block0 block1 c flags) (
        cases (λ _. bind _ λ _. returns none tt)
          λ _. bind _ λ m.
            cases (λ _. bind _ λ _. returns none tt) λ _. bind _ λ d. fix_local-Shaped _ _ _ refl)

  pub create_inverse-Shaped :
      (t : Transpose) → Ensures e (create_inverse (some t)) (Shaped (inverted e.fftw (shape_of t)))
  create_inverse-Shaped t =
      implied
        (kept_at (λ k. Inverts k t) (transposes.create_inverse-Spends any_resource (some t))
          (create_inverse-Inverts t))
        (inverts _ t)

  module _ {Q : Option Problem → Type 0} (q : Q none) where
    -- A transpose that could not be created ends the creation.
    pub requires :
        (s : Shape) (p : Problem) (reason : String) (t : Option Transpose) (go : Transpose → _)
        → Shaped s t
        → ((u : Transpose) → shape_of u ≡ s → Ensures e (go u) Q)
        → Ensures e (require p reason t go) Q
    unfolding require
    requires s p reason none go h f =
        then_ (kept (problems.destroy-Spends any_resource (some p)) anything)
          λ _ _. refuses q reason efailed
    requires s p reason (some t) go h f = f t h
