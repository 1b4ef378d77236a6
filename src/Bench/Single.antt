-- ===== src/Bench/Single.antt =====
-- The main loop of the benchmark with one field, which is the default of `nfields`.
use mathlib.Core.Path.{subst}
use underling.Common.{
  ℕ, zero, suc, ◌<◌, ◌^◌, ◌≡◌, refl, ap, ◌∙◌, ◌⊎◌, ◌==◌, ◌||◌, ◌&&◌, Bool, true, false, not,
  if◌then◌else◌, arith,
}
use underling.Bench.Defs.{Details, movement_of, add32}
use underling.Bench.Movement.{movement_of-Stays, movement_backward, total}
use underling.Bench.Pass.{
  loop, Operation, Buffers, Operations, run_on, execute_all, advance, transpose, transform,
  transform_n1, start_forward, start_backward, planned, turn, forward_pass, backward_pass,
  normalize_all, iteration, iterations, in_directions,
}

-- The letters that the options can set.
abbrev pub IsLetter : ℕ → Type 0
IsLetter letter = (letter ≡ b'i') ⊎ (letter ≡ b'c') ⊎ (letter ≡ b'r')

pub record HasLetters {R : Type 0} (d : Details R) : Type 0 where
  pub letter0 : IsLetter d.fft_n0
  pub letter1 : IsLetter d.fft_n1
  pub letter2 : IsLetter d.fft_n2

turn_one : (m : ℕ) → turn m 1 0 ≡ 0
turn_one m = ground arith

module _ {V : Type 0} where
  -- What the operations compute, wherever they read and write.
  abbrev pub applied : Bool → Operation V → V → V
  applied b op v = if b then op.result v else v

  pub run_on-dst :
      (op : Operation V) (src dst : ℕ) (f : ℕ → V) → run_on op src dst f dst ≡ op.result (f src)
  unfolding run_on
  run_on-dst op src dst f = ground arith

  -- The field stands in buffer `p`, with the content `v`.
  pub record Holds (s : Buffers V) (p : ℕ) (v : V) : Type 0 where
    pub place : s.o 0 ≡ p
    pub content : s.f p ≡ v
    pub word : p < 2 ^ 32

  module _ (op : Operation V) (m : ℕ) {s : Buffers V} {p : ℕ} {v : V} (h : Holds s p v) where
    pub transpose-Holds : Holds (transpose op m 1 s) (add32 p m) (op.result v)
    unfolding transpose execute_all advance loop
    transpose-Holds = record {
      place = ap (λ (x : ℕ). add32 x m) h.place;
      content = rw (turn_one m, h.place) (run_on-dst op p (add32 p m) s.f ∙ ap op.result h.content);
      word = omega arith;
    }

    stays : m ≡ 0 → add32 p m ≡ p
    stays e = omega (arith, h.word)

    pub transform-Holds :
        (b : Bool) → (b ≡ false → m ≡ 0) → Holds (transform b op m 1 s) (add32 p m) (applied b op v)
    unfolding transform
    transform-Holds true e = transpose-Holds
    transform-Holds false e = rw (stays (e refl)) h

    pub transform_n1-Holds :
        (b : Bool)
        → (b ≡ false → m ≡ 0)
        → Holds (transform_n1 b op m 1 s) (add32 p m) (applied b op v)
    unfolding transform_n1 transpose advance loop
    transform_n1-Holds true e = transpose-Holds
    transform_n1-Holds false e = record {
      place = ap (λ (x : ℕ). add32 x m) h.place;
      content = rw (stays (e refl)) h.content;
      word = omega arith;
    }

  -- The five operations of a pass.
  passed-Holds :
      (a b c e g : Operation V) (t0 t2 t4 : Bool) (m0 m1 m2 m3 m4 : ℕ) {s : Buffers V} {p : ℕ}
      {v : V}
      → (t0 ≡ false → m0 ≡ 0)
      → (t2 ≡ false → m2 ≡ 0)
      → (t4 ≡ false → m4 ≡ 0)
      → Holds s p v
      → Holds
          (transform t4 g m4 1
            (transpose e m3 1 (transform_n1 t2 c m2 1 (transpose b m1 1 (transform t0 a m0 1 s)))))
          (add32 (add32 (add32 (add32 (add32 p m0) m1) m2) m3) m4)
          (applied t4 g (e.result (applied t2 c (b.result (applied t0 a v)))))
  passed-Holds a b c e g t0 t2 t4 m0 m1 m2 m3 m4 z0 z2 z4 h =
      let h1 = transpose-Holds b m1 (transform-Holds a m0 h t0 z0) in
      transform-Holds g m4 (transpose-Holds e m3 (transform_n1-Holds c m2 h1 t2 z2)) t4 z4

  at_place : {s : Buffers V} {p q : ℕ} {v : V} → p ≡ q → Holds s p v → Holds s q v
  at_place {s} {v} e h = subst (λ p. Holds s p v) e h

-- A direction without a plan is one in which nothing moves.
still :
    (letter : ℕ) (inplace : Bool)
    → IsLetter letter
    → planned letter ≡ false
    → not (letter == b'i' || inplace) ≡ false
still letter inplace l e = ground arith

module _ {R V : Type 0} (d : Details R) (ops : Operations V) where
  -- The operations in their order, as one function of a field's content.
  abbrev pub carried_forward : V → V
  carried_forward v = applied (planned d.fft_n0) ops.forward_n0 (
      ops.n1_to_n0.result (
        applied (planned d.fft_n1) ops.forward_n1
          (ops.n2_to_n1.result (applied (planned d.fft_n2) ops.forward_n2 v))))

  abbrev pub carried_backward : V → V
  carried_backward v = applied (planned d.fft_n2) ops.backward_n2 (
      ops.n1_to_n2.result (
        applied (planned d.fft_n1) ops.backward_n1
          (ops.n0_to_n1.result (applied (planned d.fft_n0) ops.backward_n0 v))))

both_directions :
    {S : Type 0} (forward backward : Bool) (go come normalize : S → S) (s : S)
    → forward && backward ≡ true
    → in_directions forward backward go come normalize s ≡ normalize (come (go s))
unfolding in_directions
both_directions forward backward go come normalize s h = ground arith

module _ {R : Type 0} (d : Details R) (letters : HasLetters d) where
  open letters use {letter0, letter1, letter2}

  still0 : planned d.fft_n2 ≡ false → (movement_of d).m0 ≡ 0
  still0 e = (movement_of-Stays d).still0.1 (still d.fft_n2 d.fft_inplace letter2 e)

  still2 : planned d.fft_n1 ≡ false → (movement_of d).m2 ≡ 0
  still2 e = (movement_of-Stays d).still2.1 (still d.fft_n1 d.fft_inplace letter1 e)

  still4 : planned d.fft_n0 ≡ false → (movement_of d).m4 ≡ 0
  still4 e = (movement_of-Stays d).still4.1 (still d.fft_n0 d.fft_inplace letter0 e)

  module _ {V : Type 0} (ops : Operations V) (s : Buffers V) where
    -- One field is carried from buffer 0 through all operations of a forward pass.
    pub forward_pass-Holds :
        Holds
          (forward_pass d (movement_of d) ops 1 s)
          (total (movement_of d))
          (carried_forward d ops (s.f 0))
    unfolding forward_pass start_forward loop
    forward_pass-Holds = at_place (omega arith) (
        passed-Holds ops.forward_n2 ops.n2_to_n1 ops.forward_n1 ops.n1_to_n0 ops.forward_n0
          (planned d.fft_n2) (planned d.fft_n1) (planned d.fft_n0) _ _ _ _ _ still0 still2 still4
          (record { place = refl; content = refl; word = omega arith }))

    pub backward_pass-Holds :
        Holds
          (backward_pass d (movement_of d) ops 1 s)
          0
          (carried_backward d ops (s.f (total (movement_of d))))
    unfolding backward_pass start_backward loop
    backward_pass-Holds =
        let (e5, _, e7, _, e9) = movement_backward d in
        at_place (movement_of-Stays d).home (
          passed-Holds ops.backward_n0 ops.n0_to_n1 ops.backward_n1 ops.n1_to_n2 ops.backward_n2
            (planned d.fft_n0) (planned d.fft_n1) (planned d.fft_n2) _ _ _ _ _
            (λ z. omega (arith, still4 z, e5)) (λ z. omega (arith, still2 z, e7))
            (λ z. omega (arith, still0 z, e9))
            (record { place = refl; content = refl; word = omega arith }))

  module _ {V : Type 0} (ops : Operations V) (both : d.forward && d.backward ≡ true) where
    -- What an iteration with both directions does to a field's content.
    unfoldable pub carried : V → V
    carried v = ops.normalize (carried_backward d ops (carried_forward d ops v))

    unfoldable pub repeated : ℕ → V → V
    repeated n v = loop n (λ i. carried) v

    iteration-carried :
        (s : Buffers V) → (iteration d (movement_of d) ops 1 s).f 0 ≡ carried (s.f 0)
    unfolding iteration normalize_all loop carried
    iteration-carried s =
        let t = forward_pass d (movement_of d) ops 1 s in
        ap (λ (u : Buffers V). u.f 0) (both_directions d.forward d.backward _ _ _ s both)
        ∙ ap ops.normalize (
            (backward_pass-Holds ops t).content
            ∙ ap (carried_backward d ops) (forward_pass-Holds ops s).content)

    -- With one field and both directions, any number of iterations does to the content of the
    -- field's buffer what the operations do in their order, in and out of place.
    pub iterations-refines :
        (repeat : ℕ) (s : Buffers V)
        → (iterations d (movement_of d) ops 1 repeat s).f 0 ≡ repeated repeat (s.f 0)
    unfolding iterations repeated loop
    iterations-refines zero s = refl
    iterations-refines (suc n) s = iteration-carried _ ∙ ap carried (iterations-refines n s)
