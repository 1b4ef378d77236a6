-- ===== src/Exchange/Agree.antt =====
-- The processes of a communicator ask FFTW for the same transposes.
use mathlib.Core.Path.{subst}
use underling.Common.{ℕ, ◌*◌, ◌≡◌, sym, ap, ◌∙◌, ℤ, nonneg, some, if◌then◌else◌}
use underling.Machine.{World, ok}
use underling.Grid.Defs.{Grid}
use underling.Problem.Defs.{Problem, has_flag, transposed_long_n2, transposed_long_n0}
use underling.Problem.Create.{create}
use underling.Exchange.Defs.{part}
use underling.Exchange.RoundTrip.{inverted}
use underling.Exchange.Shapes.{shape?}
use underling.Exchange.Shares.{Process, agreed_a, agreed_b, create-Agreed}
use underling.Exchange.Blocks.{Blocks}

module _ (g g' : Grid) (howmany : ℤ) (flags : ℕ) (c : Blocks) (w w1 u u1 : World) (p q : Problem)
    (constants : w.env.fftw ≡ u.env.fftw) (n0 : g.n0 ≡ g'.n0) (n1 : g.n1 ≡ g'.n1)
    (n2 : g.n2 ≡ g'.n2) (one : create (some g) howmany flags w ≡ ok (some p) w1)
    (other : create (some g') howmany flags u ≡ ok (some q) u1) where
  create-agree_a :
      (ra ra' rb : ℕ)
      → Process w.env g (nonneg howmany) flags c ra rb
      → Process u.env g' (nonneg howmany) flags c ra' rb
      → (shape? p.backward_a ≡ shape? q.backward_a) × (shape? p.forward_a ≡ shape? q.forward_a)
  create-agree_a ra ra' rb d d' =
      let (a, b, have, x) = create-Agreed g howmany flags c ra rb w w1 p d one in
      let (a', b', have', x') = create-Agreed g' howmany flags c ra' rb u u1 q d' other in
      let same : a ≡ a' = x.is_a ∙ agrees ∙ sym x'.is_a in
      (
        have.backward_a ∙ ap some same ∙ sym have'.backward_a,
        have.forward_a ∙ (λ i. some (inverted (constants i) (same i))) ∙ sym have'.forward_a,
      )
    where
      agrees :
          agreed_a w.env.fftw g (nonneg howmany) flags c ra rb
          ≡ agreed_a u.env.fftw g' (nonneg howmany) flags c ra' rb
      agrees = λ i. record {
        d0 = part (n0 i) c.n0_b rb * n1 i;
        d1 = n2 i;
        howmany = nonneg howmany;
        block0 = part (n0 i) c.n0_b rb * c.n1_a;
        block1 = c.n2_a;
        flags = if has_flag flags transposed_long_n2 then (constants i).transposed_in else 0;
      }

  create-agree_b :
      (ra rb rb' : ℕ)
      → Process w.env g (nonneg howmany) flags c ra rb
      → Process u.env g' (nonneg howmany) flags c ra rb'
      → (shape? p.backward_b ≡ shape? q.backward_b) × (shape? p.forward_b ≡ shape? q.forward_b)
  create-agree_b ra rb rb' d d' =
      let (a, b, have, x) = create-Agreed g howmany flags c ra rb w w1 p d one in
      let (a', b', have', x') = create-Agreed g' howmany flags c ra rb' u u1 q d' other in
      let same : b ≡ b' = x.is_b ∙ agrees ∙ sym x'.is_b in
      (
        have.backward_b ∙ ap some same ∙ sym have'.backward_b,
        have.forward_b ∙ (λ i. some (inverted (constants i) (same i))) ∙ sym have'.forward_b,
      )
    where
      agrees :
          agreed_b w.env.fftw g (nonneg howmany) flags c ra rb
          ≡ agreed_b u.env.fftw g' (nonneg howmany) flags c ra rb'
      agrees = λ i. record {
        d0 = part (n2 i) c.n2_a ra * n0 i;
        d1 = n1 i;
        howmany = nonneg howmany;
        block0 = part (n2 i) c.n2_a ra * c.n0_b;
        block1 = c.n1_b;
        flags = if has_flag flags transposed_long_n0 then (constants i).transposed_out else 0;
      }

  -- Where FFTW and MPI do what is documented of them, two processes that create a problem for
  -- grids of the same sizes, with the same constants of FFTW, give FFTW the same sizes,
  -- fields, blocks and flags for the transposes along each communicator that they share.
  pub create-agree :
      (ra ra' rb rb' : ℕ)
      → Process w.env g (nonneg howmany) flags c ra rb
      → Process u.env g' (nonneg howmany) flags c ra' rb'
      → (rb ≡ rb'
          → (shape? p.backward_a ≡ shape? q.backward_a) × (shape? p.forward_a ≡ shape? q.forward_a))
        × (ra ≡ ra'
            → (shape? p.backward_b ≡ shape? q.backward_b)
              × (shape? p.forward_b ≡ shape? q.forward_b))
  create-agree ra ra' rb rb' d d' = (
    (λ e.
        create-agree_a ra ra' rb d
          (subst (λ r. Process u.env g' (nonneg howmany) flags c ra' r) (sym e) d')),
    (λ e.
        create-agree_b ra rb rb' d
          (subst (λ r. Process u.env g' (nonneg howmany) flags c r rb') (sym e) d')),
  )
