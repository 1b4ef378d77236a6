-- ===== src/Exchange/Shares.antt =====
-- What is documented of a process: its shares, and what is broadcast to it.
use underling.Common.{ℕ, ◌*◌, ◌≡◌, refl, ap, ◌∙◌, ℤ, nonneg, some, if◌then◌else◌}
use underling.Machine.{Env, Trace, World, Reply, FftwConstants, ok, bcast}
use underling.Extents.Defs.{Extents, finish}
use underling.Grid.Defs.{Grid}
use underling.Problem.Defs.{
  Problem, has_flag, transposed_long_n2, transposed_long_n0, laid_out, layout_n0, layout_n1,
  layout_n2, first_share, second_share, unfinished,
}
use underling.Problem.Create.{create}
use underling.Machine.Sent.{Among, sent}
use underling.Exchange.Sends.{create-sends}
use underling.Exchange.Defs.{Shape, part}
use underling.Exchange.Creation.{Answers, Made, create-Made}
use underling.Exchange.Blocks.{IsShared, Blocks, Sharing, part-first}

-- A process of the same grid sizes that has created a problem: a process 0 of a communicator is asked what
-- it has broadcast.
pub record Head (n0 n1 n2 : ℕ) (c : Blocks) (ra rb : ℕ) : Type 0 where
  pub grid : Grid
  pub howmany : ℤ
  pub flags : ℕ
  pub start : World
  pub end : World
  pub problem : Problem
  pub size0 : grid.n0 ≡ n0
  pub size1 : grid.n1 ≡ n1
  pub size2 : grid.n2 ≡ n2
  pub sharing : Sharing start.env grid (nonneg howmany) c ra rb
  pub created : create (some grid) howmany flags start ≡ ok (some problem) end

-- What MPI documents of a broadcast: whatever a process has in its buffer, the call gives it what process
-- 0 of the communicator sends, where that has one pair to send along it.
pub record Receives (e : Env) (comm : ℕ) (head_comm : ℕ) (head : Trace) : Type 0 where
  pub gives :
      (x y : ℕ)
      → Among (x, y) (sent head_comm head)
      → (t : Trace) (a b : ℕ) → (e.out t (bcast a b comm) 0 ≡ x) × (e.out t (bcast a b comm) 1 ≡ y)

-- A process that is number `ra` of its pA_comm and number `rb` of its pB_comm, and the two processes 0 of
-- these, which are in the same place of the other communicator.
pub record Process (e : Env) (g : Grid) (howmany flags : ℕ) (c : Blocks) (ra rb : ℕ) : Type 0 where
  pub sharing : Sharing e g howmany c ra rb
  pub head_a : Head g.n0 g.n1 g.n2 c 0 rb
  pub receives_a : Receives e g.p_a_comm head_a.grid.p_a_comm head_a.end.trace
  pub head_b : Head g.n0 g.n1 g.n2 c ra 0
  pub receives_b : Receives e g.p_b_comm head_b.grid.p_b_comm head_b.end.trace

-- The arguments of the transposes, and the layouts, of such a process.
module _ (k : FftwConstants) (g : Grid) (howmany flags : ℕ) (c : Blocks) (ra rb : ℕ) where
  abbrev pub l0 : ℕ
  l0 = part g.n0 c.n0_b rb

  abbrev pub l2 : ℕ
  l2 = part g.n2 c.n2_a ra

  abbrev pub agreed_a : Shape
  agreed_a = record {
    d0 = l0 * g.n1;
    d1 = g.n2;
    howmany = howmany;
    block0 = l0 * c.n1_a;
    block1 = c.n2_a;
    flags = if has_flag flags transposed_long_n2 then k.transposed_in else 0;
  }

  abbrev pub agreed_b : Shape
  agreed_b = record {
    d0 = l2 * g.n0;
    d1 = g.n1;
    howmany = howmany;
    block0 = l2 * c.n0_b;
    block1 = c.n1_b;
    flags = if has_flag flags transposed_long_n0 then k.transposed_out else 0;
  }

  pub record Agreed (e0 e1 e2 : Extents) (a b : Shape) : Type 0 where
    pub is_a : a ≡ agreed_a
    pub is_b : b ≡ agreed_b
    pub share_b : Reply
    pub share_a : Reply
    pub of_b : IsShared g.n0 g.n1 c.n0_b c.n1_b rb share_b
    pub of_a : IsShared g.n1 g.n2 c.n1_a c.n2_a ra share_a
    pub long_n0 :
        e0 ≡ finish (layout_n0 g howmany flags (second_share share_b) (second_share share_a))
    pub long_n1 : e1 ≡ finish (layout_n1 g howmany (first_share share_b) (second_share share_a))
    pub long_n2 :
        e2 ≡ finish (layout_n2 g howmany flags (first_share share_b) (first_share share_a))

ap2 : {A B C : Type 0} (f : A → B → C) {x x' : A} {y y' : B} → x ≡ x' → y ≡ y' → f x y ≡ f x' y'
ap2 f p q = λ i. f (p i) (q i)

abbrev Sent : (x y : ℕ) → Reply → Type 0
Sent x y r = (r.out 0 ≡ x) × (r.out 1 ≡ y)

module _ {e : Env} {g : Grid} {howmany flags : ℕ} {c : Blocks} {ra rb : ℕ}
    (d : Process e g howmany flags c ra rb) where
  abbrev m0 : ℕ
  m0 = l0 e.fftw g howmany flags c ra rb

  abbrev m2 : ℕ
  m2 = l2 e.fftw g howmany flags c ra rb

  answered :
      Answers e g howmany flags
        (IsShared g.n0 g.n1 c.n0_b c.n1_b rb)
        (IsShared g.n1 g.n2 c.n1_a c.n2_a ra)
        (Sent (m0 * c.n1_a) c.n2_a)
        (Sent (m2 * c.n0_b) c.n1_b)
  answered = record {
    share_b = d.sharing.share_b;
    share_a = d.sharing.share_a;
    sent_a = λ t x y.
        let h = d.head_a in
        let (by_a, by_b) =
          create-sends h.grid h.howmany h.flags c 0 rb h.start h.end h.problem h.sharing
            h.created in
        let (i, j) = d.receives_a.gives _ _ by_a t x y in
        (
          i
              ∙ ap2 (λ n n'. part n c.n0_b rb * part n' c.n1_a 0) h.size0 h.size1
              ∙ ap (λ x. m0 * x) (part-first g.n1 c.n1_a d.sharing.blocks.n1_a),
          j ∙ ap (λ n. part n c.n2_a 0) h.size2 ∙ part-first g.n2 c.n2_a d.sharing.blocks.n2_a,
        );
    sent_b = λ t x y.
        let h = d.head_b in
        let (by_a, by_b) =
          create-sends h.grid h.howmany h.flags c ra 0 h.start h.end h.problem h.sharing
            h.created in
        let (i, j) = d.receives_b.gives _ _ by_b t x y in
        (
          i
              ∙ ap2 (λ n n'. part n c.n2_a ra * part n' c.n0_b 0) h.size2 h.size0
              ∙ ap (λ x. m2 * x) (part-first g.n0 c.n0_b d.sharing.blocks.n0_b),
          j ∙ ap (λ n. part n c.n1_b 0) h.size1 ∙ part-first g.n1 c.n1_b d.sharing.blocks.n1_b,
        );
  }

-- The arguments that a process gives FFTW depend on its place in the other communicator only.
pub create-Agreed :
    (g : Grid) (howmany : ℤ) (flags : ℕ) (c : Blocks) (ra rb : ℕ) (w w' : World) (p : Problem)
    → Process w.env g (nonneg howmany) flags c ra rb
    → create (some g) howmany flags w ≡ ok (some p) w'
    → Made w.env (Agreed w.env.fftw g (nonneg howmany) flags c ra rb) (some p)
unfolding laid_out finish layout_n0 layout_n1 layout_n2 unfinished first_share second_share
create-Agreed g howmany flags c ra rb w w' p d h =
    ((create-Made w.env (Agreed w.env.fftw g (nonneg howmany) flags c ra rb) g howmany flags _ _ _ _
        (answered d)
        λ i lB lA sa sb of_b of_a (a0, a1) (b0, b1). record {
          is_a = λ i. record {
            d0 = of_b.size0 i * g.n1;
            d1 = g.n2;
            howmany = nonneg howmany;
            block0 = a0 i;
            block1 = a1 i;
            flags = if has_flag flags transposed_long_n2 then w.env.fftw.transposed_in else 0;
          };
          is_b = λ i. record {
            d0 = of_a.size1 i * g.n0;
            d1 = g.n1;
            howmany = nonneg howmany;
            block0 = b0 i;
            block1 = b1 i;
            flags = if has_flag flags transposed_long_n0 then w.env.fftw.transposed_out else 0;
          };
          share_b = lB;
          share_a = lA;
          of_b = of_b;
          of_a = of_a;
          long_n0 = refl;
          long_n1 = refl;
          long_n2 = refl;
        }).run
      w w' (some p) refl h).0
