-- ===== src/Problem/Success.antt =====
-- A problem is created where every call does its work.
use underling.Common.{
  ℕ, ◌≡◌, ◌≢◌, refl, Bool, true, false, bit_and, not32, ◌⊎◌, inl, inr, ℤ, nonneg, Option, none,
  some, if◌then◌else◌, arith,
}
use underling.Machine.{Env, Trace, World, FftwConstants, Reply, ok, local_size_many_transposed}
use underling.Machine.Works.{Works}
use underling.Machine.Succeeds.{Succeeds, gives, then_, asks, reads, skips, passes, sure}
use underling.Grid.Defs.{Grid}
use underling.Transpose.Defs.{Transpose, has_other_flags}
use underling.Transpose.Inverse.{zero-bit_and}
use underling.Transpose
use underling.Transpose.Success.{IsSome, Ready}
use underling.Problem.Defs.{Problem, share_fits, laid_out, products_fit}
use underling.Problem.Create.{
  check_arguments, require, create_forward, create_backward, share_blocks, decompose, allocate,
  given, create, with_local_memory, howmany_tmp,
}

-- All four transposes are there.
pub record IsWhole (p : Problem) : Type 0 where
  pub backward_a : IsSome (λ _. Unit {0}) p.backward_a
  pub backward_b : IsSome (λ _. Unit {0}) p.backward_b
  pub forward_b : IsSome (λ _. Unit {0}) p.forward_b
  pub forward_a : IsSome (λ _. Unit {0}) p.forward_a

-- What FFTW documents of its two flags: neither has a bit beside the two.
pub record AreTheFlags (k : FftwConstants) : Type 0 where
  pub in_only :
      bit_and k.transposed_in (bit_and (not32 k.transposed_in) (not32 k.transposed_out)) ≡ 0
  pub out_only :
      bit_and k.transposed_out (bit_and (not32 k.transposed_in) (not32 k.transposed_out)) ≡ 0

-- The two calls for the shares of a process.
abbrev pub shares_b : Env → Grid → (howmany : ℕ) → Trace → Reply
shares_b e g howmany t =
    let c =
      local_size_many_transposed g.n0 g.n1 (howmany_tmp howmany) e.fftw.default_block
        e.fftw.default_block g.p_b_comm in
    record { status = e.status t c; out = e.out t c }

abbrev pub shares_a : Env → Grid → (howmany : ℕ) → Trace → Reply
shares_a e g howmany t =
    let c =
      local_size_many_transposed g.n1 g.n2 (howmany_tmp howmany) e.fftw.default_block
        e.fftw.default_block g.p_a_comm in
    record { status = e.status t c; out = e.out t c }

-- The shares and the products that are formed of them fit an `int`.
pub record Fits (e : Env) (g : Grid) (howmany flags : ℕ) : Type 0 where
  pub share_b : (t : Trace) → share_fits (shares_b e g howmany t) ≡ true
  pub share_a : (t : Trace) → share_fits (shares_a e g howmany t) ≡ true
  pub products :
      (i : ℕ) (t t' : Trace)
      → products_fit g
          (laid_out i g howmany flags (shares_b e g howmany t) (shares_a e g howmany t'))
        ≡ true

abbrev Whole : Option Problem → Type 0
Whole = IsSome IsWhole

module _ {e : Env} (ok : Works e) (two : AreTheFlags e.fftw) where
  require-Succeeds :
      (P : Transpose → Type 0) (p : Problem) (reason : _) (t : Option Transpose)
      (go : Transpose → _)
      → IsSome P t
      → ((u : Transpose) → P u → Succeeds e (go u) Whole)
      → Succeeds e (require p reason t go) Whole
  unfolding require
  require-Succeeds P p reason none go h q = absurd h
  require-Succeeds P p reason (some u) go h q = q u h

  none_other :
      (flags : ℕ)
      → (flags ≡ 0) ⊎ ((flags ≡ e.fftw.transposed_in) ⊎ (flags ≡ e.fftw.transposed_out))
      → has_other_flags e.fftw flags ≡ false
  unfolding has_other_flags
  none_other flags (inl f) =
      let z = zero-bit_and (bit_and (not32 e.fftw.transposed_in) (not32 e.fftw.transposed_out)) in
      rw f (ground (arith, z))
  none_other flags (inr (inl f)) = rw f (ground (arith, two.in_only))
  none_other flags (inr (inr f)) = rw f (ground (arith, two.out_only))

  or_in :
      {f : ℕ} (b : Bool)
      → f ≡ (if b then e.fftw.transposed_in else 0)
      → (f ≡ 0) ⊎ ((f ≡ e.fftw.transposed_in) ⊎ (f ≡ e.fftw.transposed_out))
  or_in true h = inr (inl h)
  or_in false h = inl h

  or_out :
      {f : ℕ} (b : Bool)
      → f ≡ (if b then e.fftw.transposed_out else 0)
      → (f ≡ 0) ⊎ ((f ≡ e.fftw.transposed_in) ⊎ (f ≡ e.fftw.transposed_out))
  or_out true h = inr (inr h)
  or_out false h = inl h

  create_forward-Succeeds :
      (p : Problem) (t u : Transpose)
      → t.comm ≢ 0
      → u.comm ≢ 0
      → has_other_flags e.fftw t.flags ≡ false
      → has_other_flags e.fftw u.flags ≡ false
      → Succeeds e (create_forward (record p { backward_a = some t; backward_b = some u })) Whole
  unfolding create_forward with_local_memory
  create_forward-Succeeds p t u ht hu ft fu =
      then_ (Transpose.Success.create_inverse-Succeeds ok u hu fu) λ fB sB.
        require-Succeeds _ _ _ fB _ sB λ v _.
          then_ (Transpose.Success.create_inverse-Succeeds ok t ht ft) λ fA sA.
            require-Succeeds _ _ _ fA _ sA λ x _.
              gives _ (record { backward_a = tt; backward_b = tt; forward_b = tt; forward_a = tt })

  create_backward-Succeeds :
      (g : Grid) (p : Problem) (flags : ℕ) (ra rb : Reply)
      → g.p_a_comm ≢ 0
      → g.p_b_comm ≢ 0
      → Succeeds e (create_backward g p flags ra rb) Whole
  unfolding create_backward
  create_backward-Succeeds g p flags ra rb ha hb = reads _ (
      then_ (Transpose.Success.create-Succeeds ok _ _ _ _ _ _ _ ha) λ bA sA.
        require-Succeeds _ _ _ bA _ sA λ t (ct, ft).
          then_ (Transpose.Success.create-Succeeds ok _ _ _ _ _ _ _ hb) λ bB sB.
            require-Succeeds _ _ _ bB _ sB λ u (cu, fu).
              create_forward-Succeeds p t u ct cu (none_other t.flags (or_in _ ft))
                (none_other u.flags (or_out _ fu)))

  module _ (g : Grid) (howmany flags : ℕ) (ha : g.p_a_comm ≢ 0) (hb : g.p_b_comm ≢ 0)
      (fits : Fits e g howmany flags) where
    share_blocks-Succeeds :
        (p : Problem) → products_fit g p ≡ true → Succeeds e (share_blocks g p flags) Whole
    unfolding share_blocks
    share_blocks-Succeeds p h = skips _ (rw h refl) (
        asks _ (λ s. s.status ≡ 0) (λ t. ok.status t _)
          λ a za. skips _ (ground (arith, za)) (
            asks _ (λ s. s.status ≡ 0) (λ t. ok.status t _)
              λ b zb. skips _ (ground (arith, zb)) (create_backward-Succeeds g p flags a b ha hb)))

    allocate-Succeeds : Succeeds e (allocate g howmany flags) Whole
    unfolding allocate decompose
    allocate-Succeeds =
        asks _ (λ s. s.out 0 ≢ 0) (λ t. ok.malloc t _)
          λ m y. skips _ (ground (arith, y)) (
            reads _ (
              asks _ (λ s. (t : Trace) × (s ≡ shares_b e g howmany t)) (λ t. (t, refl))
                λ lB (tB, eB). sure _ (rw eB (fits.share_b tB)) (
                  asks _ (λ s. (t : Trace) × (s ≡ shares_a e g howmany t)) (λ t. (t, refl))
                    λ lA (tA, eA).
                      sure _ (rw eA (fits.share_a tA))
                        (share_blocks-Succeeds _ (rw (eB, eA) (fits.products _ tB tA))))))

-- Where every call does its work, the communicators of the grid are not NULL, the arguments pass their check, FFTW's two
-- flags have no other bits, and what the creation computes of its shares fits an `int`: a problem with
-- all four transposes is created.
pub create-succeeds :
    (g : Grid) (howmany : ℤ) (flags : ℕ) (w : World)
    → Works w.env
    → AreTheFlags w.env.fftw
    → g.p_a_comm ≢ 0
    → g.p_b_comm ≢ 0
    → Fits w.env g (nonneg howmany) flags
    → check_arguments (some g) howmany flags ≡ none
    → (p : Problem) × (w' : World) × (create (some g) howmany flags w ≡ ok (some p) w')
      × IsWhole p
      × (w'.env ≡ w.env)
unfolding create given
create-succeeds g howmany flags w works two ha hb fits h = some_problem made
  where
    made :
        (v : Option Problem) × (w' : World) × (create (some g) howmany flags w ≡ ok v w')
        × Whole v
        × (w'.env ≡ w.env)
    made = (passes _ h (allocate-Succeeds works two g (nonneg howmany) flags ha hb fits)).run w refl

    some_problem :
        (v : Option Problem) × (w' : World) × (create (some g) howmany flags w ≡ ok v w')
          × Whole v
          × (w'.env ≡ w.env)
        → (p : Problem) × (w' : World) × (create (some g) howmany flags w ≡ ok (some p) w')
          × IsWhole p
          × (w'.env ≡ w.env)
    some_problem (none, w', i, x, k) = absurd x
    some_problem (some p, w', i, x, k) = (p, w', i, x, k)
