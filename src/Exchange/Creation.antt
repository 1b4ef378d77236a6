-- ===== src/Exchange/Creation.antt =====
-- What the creation of a problem makes, whatever is known of the answers to its calls.
use underling.Common.{ℕ, ◌≡◌, ap, ◌∙◌, ℤ, nonneg, Option, none, some}
use underling.Machine.{Env, Trace, Reply, bcast, local_size_many_transposed}
use underling.Machine.Ensures.{Ensures, gives, stops, then_, asks, reads, tests, forks, screens}
use underling.Error.Ensures.{refuses, gives_up}
use underling.Extents.Defs.{Extents}
use underling.Grid.Defs.{Grid}
use underling.Transpose.Defs.{Transpose}
use underling.Problem.Defs.{Problem, laid_out}
use underling.Problem.Create.{
  create_forward, create_backward, share_blocks, decompose, allocate, given, create,
  with_local_memory, howmany_tmp,
}
use underling.Exchange.Defs.{Shape, shape_of}
use underling.Exchange.RoundTrip.{inverted}
use underling.Exchange.Shapes.{
  HasTransposes, shape_a, shape_b, create-Shaped, create_inverse-Shaped, requires,
}

module _ (e : Env) (g : Grid) (howmany flags : ℕ) (OfB OfA SentA SentB : Reply → Type 0) where
  -- What is known of the answers to the calls of the creation.
  pub record Answers : Type 0 where
    pub share_b :
        (t : Trace)
        → let c =
            local_size_many_transposed g.n0 g.n1
              (howmany_tmp howmany)
              e.fftw.default_block
              e.fftw.default_block
              g.p_b_comm in
          OfB (record { status = e.status t c; out = e.out t c })
    pub share_a :
        (t : Trace)
        → let c =
            local_size_many_transposed g.n1 g.n2
              (howmany_tmp howmany)
              e.fftw.default_block
              e.fftw.default_block
              g.p_a_comm in
          OfA (record { status = e.status t c; out = e.out t c })
    pub sent_a :
        (t : Trace) (x y : ℕ)
        → let c = bcast x y g.p_a_comm in SentA (record { status = e.status t c; out = e.out t c })
    pub sent_b :
        (t : Trace) (x y : ℕ)
        → let c = bcast x y g.p_b_comm in SentB (record { status = e.status t c; out = e.out t c })

-- Whatever holds of the layouts and of the two transposes holds of the problem that is created.
module _ (e : Env) (G : Extents → Extents → Extents → Shape → Shape → Type 0) where
  abbrev pub Made : Option Problem → Type 0
  Made none = Unit {0}
  Made (some p) =
      (a : Shape) × (b : Shape) × HasTransposes e.fftw a b p × G p.long_n0 p.long_n1 p.long_n2 a b

  create_forward-Made :
      (p : Problem) (t u : Transpose) (a b : Shape)
      → shape_of t ≡ a
      → shape_of u ≡ b
      → G p.long_n0 p.long_n1 p.long_n2 a b
      → Ensures e (create_forward (record p { backward_a = some t; backward_b = some u })) Made
  unfolding create_forward with_local_memory
  create_forward-Made p t u a b ea eb h = then_ (create_inverse-Shaped u) λ fB sB.
      requires tt _ _ _ fB _ sB λ v ev. then_ (create_inverse-Shaped t) λ fA sA.
        requires tt _ _ _ fA _ sA λ x ex. gives _ (
          a,
          b,
          record {
            backward_a = ap some ea;
            backward_b = ap some eb;
            forward_b = ap some (ev ∙ ap (inverted e.fftw) eb);
            forward_a = ap some (ex ∙ ap (inverted e.fftw) ea);
          },
          h,
        )

  create_backward-Made :
      (g : Grid) (p : Problem) (flags : ℕ) (ra rb : Reply)
      → G p.long_n0 p.long_n1 p.long_n2 (shape_a e.fftw g p flags ra) (shape_b e.fftw g p flags rb)
      → Ensures e (create_backward g p flags ra rb) Made
  unfolding create_backward
  create_backward-Made g p flags ra rb h = reads _ (
      then_ (create-Shaped _ _ _ _ _ _ _) λ bA sA. requires tt _ _ _ bA _ sA λ t et.
        then_ (create-Shaped _ _ _ _ _ _ _)
          λ bB sB. requires tt _ _ _ bB _ sB λ u eu. create_forward-Made p t u _ _ et eu h)

  module _ (g : Grid) (howmany flags : ℕ) (OfB OfA SentA SentB : Reply → Type 0) where
    module _ (known : Answers e g howmany flags OfB OfA SentA SentB)
        (h : (i : ℕ) (lB lA ra rb : Reply)
          → OfB lB
          → OfA lA
          → SentA ra
          → SentB rb
          → let p = laid_out i g howmany flags lB lA in
            G p.long_n0 p.long_n1 p.long_n2
              (shape_a e.fftw g p flags ra)
              (shape_b e.fftw g p flags rb)) where
      share_blocks-Made :
          (i : ℕ) (lB lA : Reply)
          → OfB lB
          → OfA lA
          → Ensures e (share_blocks g (laid_out i g howmany flags lB lA) flags) Made
      unfolding share_blocks
      share_blocks-Made i lB lA b a =
          forks (λ _. stops _)
            λ _.
              asks _ SentA (λ t. known.sent_a t _ _)
                λ ra ka.
                  forks (λ _. gives_up tt _)
                    λ _.
                      asks _ SentB (λ t. known.sent_b t _ _)
                        λ rb kb.
                          forks (λ _. gives_up tt _)
                            λ _. create_backward-Made g _ flags ra rb (h i lB lA ra rb b a ka kb)

      allocate-Made : Ensures e (allocate g howmany flags) Made
      unfolding allocate decompose
      allocate-Made =
          asks _ (λ _. Unit {0}) (λ _. tt)
            λ m _.
              forks (λ _. refuses tt _ _)
                λ _. reads _ (
                  asks _ OfB known.share_b λ lB b.
                    tests _ _
                      (asks _ OfA known.share_a λ lA a. tests _ _ (share_blocks-Made _ lB lA b a)))

  pub create-Made :
      (g : Grid) (howmany : ℤ) (flags : ℕ) (OfB OfA SentA SentB : Reply → Type 0)
      → Answers e g (nonneg howmany) flags OfB OfA SentA SentB
      → ((i : ℕ) (lB lA ra rb : Reply)
          → OfB lB
          → OfA lA
          → SentA ra
          → SentB rb
          → let p = laid_out i g (nonneg howmany) flags lB lA in
            G p.long_n0 p.long_n1 p.long_n2
              (shape_a e.fftw g p flags ra)
              (shape_b e.fftw g p flags rb))
      → Ensures e (create (some g) howmany flags) Made
  unfolding create given
  create-Made g howmany flags OfB OfA SentA SentB known h =
      screens _ (λ reason. refuses tt _ _)
        (allocate-Made g (nonneg howmany) flags OfB OfA SentA SentB known h)
