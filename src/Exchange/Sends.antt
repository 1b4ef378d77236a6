-- ===== src/Exchange/Sends.antt =====
-- What the creation of a problem broadcasts.
use underling.Common.{ℕ, ◌*◌, ◌≡◌, refl, ℤ, nonneg, Option, none, some}
use underling.Machine.{M, Env, Trace, World, Reply, ok}
use underling.Machine.Sent.{Among, sent}
use underling.Machine.Ensures.{Ensures, kept, any_resource}
use underling.Machine.Yields.{anything}
use underling.Machine.Leaves.{
  Goes, goes, asked, forked, Leaves, ensured, stops_, asks_, reads_, tests_, forks_, screens_,
  sends,
}
use underling.Error.Ensures.{refuses, gives_up}
use underling.Error.Laws.{mpichkn-Spends}
use underling.Extents.Defs.{finish}
use underling.Grid.Defs.{Grid}
use underling.Problem.Defs.{
  Problem, laid_out, layout_n0, layout_n1, layout_n2, first_share, second_share, unfinished,
}
use underling.Problem.Accounts.{create_backward-Spends}
use underling.Problem.Create.{create_backward, share_blocks, decompose, allocate, given, create}
use underling.Exchange.Defs.{part}
use underling.Exchange.Blocks.{IsShared, Blocks, Sharing}

-- The blocks of a process along both communicators, as broadcasts of its own.
abbrev pub SendsBlocks : Grid → Blocks → (ra rb : ℕ) → Option Problem → Trace → Type 0
SendsBlocks g c ra rb none t = Unit {0}
SendsBlocks g c ra rb (some p) t =
    Among (part g.n0 c.n0_b rb * part g.n1 c.n1_a ra, part g.n2 c.n2_a ra) (sent g.p_a_comm t)
    × Among (part g.n2 c.n2_a ra * part g.n0 c.n0_b rb, part g.n1 c.n1_b rb) (sent g.p_b_comm t)

module _ {e : Env} (g : Grid) (howmany flags : ℕ) (c : Blocks) (ra rb : ℕ)
    (d : Sharing e g howmany c ra rb) where
  create_backward-Goes :
      (i : ℕ) (lB lA a b : Reply)
      → Goes (create_backward g (laid_out i g howmany flags lB lA) flags a b)
  unfolding laid_out
  create_backward-Goes i lB lA a b =
      goes (create_backward-Spends any_resource g _ flags a b refl refl refl refl)

  create_backward-Ensures :
      (i : ℕ) (lB lA a b : Reply)
      → Ensures e (create_backward g (laid_out i g howmany flags lB lA) flags a b) (λ _. Unit {0})
  unfolding laid_out
  create_backward-Ensures i lB lA a b =
      kept (create_backward-Spends any_resource g _ flags a b refl refl refl refl) anything

  nothing : (v : Option Problem) (t : Trace) → v ≡ none → SendsBlocks g c ra rb v t
  nothing none t h = tt
  nothing (some p) t h = absurd (cc)

  refused :
      {m : M (Option Problem)} → Ensures e m (λ v. v ≡ none) → Leaves e m (SendsBlocks g c ra rb)
  refused m = ensured m nothing

  settled :
      (lB lA : Reply) (v : Option Problem) (t : Trace)
      → IsShared g.n0 g.n1 c.n0_b c.n1_b rb lB
      → IsShared g.n1 g.n2 c.n1_a c.n2_a ra lA
      → Among (lB.out 1 * lA.out 1, lA.out 3) (sent g.p_a_comm t)
      → Among (lA.out 3 * lB.out 1, lB.out 3) (sent g.p_b_comm t)
      → SendsBlocks g c ra rb v t
  settled lB lA none t of_b of_a x y = tt
  settled lB lA (some p) t of_b of_a x y =
      (rw (of_b.size0, of_a.size0, of_a.size1) at x, rw (of_a.size1, of_b.size0, of_b.size1) at y)

  share_blocks-sends :
      (i : ℕ) (lB lA : Reply)
      → IsShared g.n0 g.n1 c.n0_b c.n1_b rb lB
      → IsShared g.n1 g.n2 c.n1_a c.n2_a ra lA
      → Leaves e (share_blocks g (laid_out i g howmany flags lB lA) flags) (SendsBlocks g c ra rb)
  unfolding share_blocks laid_out finish layout_n0 layout_n1 layout_n2 unfinished first_share
      second_share
  share_blocks-sends i lB lA of_b of_a = forks_ _ (stops_ _) (
      sends _ _ _
        (λ s. forked _ (goes (mpichkn-Spends any_resource _ (λ _. 0))) (
          asked _ λ s'.
            forked _ (goes (mpichkn-Spends any_resource _ (λ _. 0)))
              (create_backward-Goes i lB lA s s')))
        λ s. forks_ _ (ensured (gives_up {Q = λ v. v ≡ none} refl _) λ v t n in_a. nothing v t n) (
          sends _ _ _
            (λ s'.
              forked _ (goes (mpichkn-Spends any_resource _ (λ _. 0)))
                (create_backward-Goes i lB lA s s'))
            λ s'.
              forks_ _
                (ensured (gives_up {Q = λ v. v ≡ none} refl _) λ v t n in_b in_a. nothing v t n)
                (ensured (create_backward-Ensures i lB lA s s')
                  λ v t n in_b in_a. settled lB lA v t of_b of_a in_a in_b)))

  allocate-sends : Leaves e (allocate g howmany flags) (SendsBlocks g c ra rb)
  unfolding allocate decompose
  allocate-sends =
      asks_ _ (λ _. Unit {0}) (λ _. tt)
        λ m _. forks_ _ (refused (refuses refl _ _)) (
          reads_ _ (
            asks_ _ (IsShared g.n0 g.n1 c.n0_b c.n1_b rb) d.share_b λ lB b. tests_ _ _ (
              asks_ _ (IsShared g.n1 g.n2 c.n1_a c.n2_a ra) d.share_a
                λ lA a. tests_ _ _ (share_blocks-sends _ lB lA b a))))

creation :
    (e : Env) (g : Grid) (howmany : ℤ) (flags : ℕ) (c : Blocks) (ra rb : ℕ)
    → Sharing e g (nonneg howmany) c ra rb
    → Leaves e (create (some g) howmany flags) (SendsBlocks g c ra rb)
unfolding create given
creation e g howmany flags c ra rb d =
    screens_ _ (λ reason. refused g (nonneg howmany) flags c ra rb d (refuses refl _ _))
      (allocate-sends g (nonneg howmany) flags c ra rb d)

-- A process to which FFTW gives the documented shares, and whose creation of a problem comes to a problem,
-- has broadcast its own blocks along both communicators: the product of its shares of n0 and n1, and its
-- share of n2, along pA; the product of its shares of n2 and n0, and its share of n1, along pB.
pub create-sends :
    (g : Grid) (howmany : ℤ) (flags : ℕ) (c : Blocks) (ra rb : ℕ) (w w' : World) (p : Problem)
    → Sharing w.env g (nonneg howmany) c ra rb
    → create (some g) howmany flags w ≡ ok (some p) w'
    → SendsBlocks g c ra rb (some p) w'.trace
create-sends g howmany flags c ra rb w w' p d h =
    (creation w.env g howmany flags c ra rb d).run w w' (some p) refl h
