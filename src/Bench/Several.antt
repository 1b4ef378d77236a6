-- ===== src/Bench/Several.antt =====
-- The main loop of the benchmark with several fields.
use underling.Common.{ℕ, suc, ◌≤◌, ◌<◌, ◌^◌, ◌≡◌, ap, ◌∙◌, true, false, not, arith}
use underling.Bench.Defs.{Details, movement_of, movement, leaves, neg32, truth}
use underling.Bench.Movement.{movement_of-Stays, movement_backward}
use underling.Bench.Pass.{
  loop, update, Buffers, Operation, execute_all, advance, transpose, transform, start_forward,
  planned, forward_pass, backward_pass, Operations,
}
use underling.Bench.Single.{carried_forward, carried_backward}
use underling.Bench.Loops.{times, stepped, counted, rising_loop, rising_forgets}
use underling.Bench.Places.{
  power, transform-Ordered, transform_n1-Ordered, moved-Ordered, moved-Collapsed,
  transform-Collapsed, transform_n1-Collapsed, start_forward-Ordered, start_backward-Collapsed,
}

module _ {R : Type 0} (d : Details R) (mpi : d.mpi_inplace ≡ true)
    (fft : d.fft_inplace ≡ true) where
  negated : {a b : ℕ} → b ≡ neg32 a → a ≡ 0 → b ≡ 0
  negated e f = omega arith

  stays_put : (letter : ℕ) → leaves d letter ≡ false
  stays_put letter = ground arith

  -- All in place, nothing moves.
  at_rest : let m = movement_of d in (m.m0 ≡ 0) × (m.m1 ≡ 0) × (m.m2 ≡ 0) × (m.m3 ≡ 0) × (m.m4 ≡ 0)
  at_rest =
      let s = movement_of-Stays d in
      (
        s.still0.1 (stays_put d.fft_n2),
        s.still1.1 (ap not mpi),
        s.still2.1 (stays_put d.fft_n1),
        s.still3.1 (ap not mpi),
        s.still4.1 (stays_put d.fft_n0),
      )

  module _ {V : Type 0} (ops : Operations V) (n : ℕ) (small : n ≤ 2 ^ 31) (s : Buffers V) where
    -- All in place, a forward pass carries every field through all operations in its own buffer.
    pub forward_pass-in_place :
        (i : ℕ)
        → i < n
        → (forward_pass d (movement_of d) ops n s).f i ≡ carried_forward d ops (s.f i)
    unfolding forward_pass
    forward_pass-in_place =
        let (z0, z1, z2, z3, z4) = at_rest in
        let h0 =
          transform-Ordered n small ops.forward_n2 z0 (planned d.fft_n2)
            (start_forward-Ordered n small s) in
        let h1 = moved-Ordered n small ops.n2_to_n1 z1 h0 in
        let h2 = transform_n1-Ordered n small ops.forward_n1 z2 (planned d.fft_n1) h1 in
        let h3 = moved-Ordered n small ops.n1_to_n0 z3 h2 in
        (transform-Ordered n small ops.forward_n0 z4 (planned d.fft_n0) h3).content

    -- What a backward pass does in place: the operations are made on buffer 0 as often as there are
    -- fields, and on no other buffer.
    pub powers : Operations V
    powers = record {
      forward_n2 = ops.forward_n2;
      n2_to_n1 = ops.n2_to_n1;
      forward_n1 = ops.forward_n1;
      n1_to_n0 = ops.n1_to_n0;
      forward_n0 = ops.forward_n0;
      backward_n0 = power n small ops.backward_n0;
      n0_to_n1 = power n small ops.n0_to_n1;
      backward_n1 = power n small ops.backward_n1;
      n1_to_n2 = power n small ops.n1_to_n2;
      backward_n2 = power n small ops.backward_n2;
      normalize = ops.normalize;
    }

    -- All in place, a backward pass makes each operation on the first field as often as there are
    -- fields, and does nothing to the others.
    pub backward_pass-in_place :
        ((backward_pass d (movement_of d) ops n s).f 0 ≡ carried_backward d powers (s.f 0))
        × ((i : ℕ) → (backward_pass d (movement_of d) ops n s).f (suc i) ≡ s.f (suc i))
    unfolding backward_pass powers
    backward_pass-in_place =
        let (z0, z1, z2, z3, z4) = at_rest in
        let (e5, e6, e7, e8, e9) = movement_backward d in
        let h0 = transform-Collapsed n small ops.backward_n0 (negated e5 z4) (planned d.fft_n0) (
          start_backward-Collapsed n small (movement_of d) s (omega (arith, z0, z1, z2, z3, z4))) in
        let h1 = moved-Collapsed n small ops.n0_to_n1 (negated e6 z3) h0 in
        let h2 =
          transform_n1-Collapsed n small ops.backward_n1 (negated e7 z2) (planned d.fft_n1) h1 in
        let h3 = moved-Collapsed n small ops.n1_to_n2 (negated e8 z1) h2 in
        let h4 =
          transform-Collapsed n small ops.backward_n2 (negated e9 z0) (planned d.fft_n2) h3 in
        (h4.first, h4.others)

module _ {R : Type 0} (d : Details R) (out : leaves d d.fft_n2 ≡ true) where
  rises : (movement_of d).m0 ≡ 1
  unfolding movement_of movement
  rises = ap truth out

  -- Out of place, the first transform of a forward pass loses all fields but the first: what it
  -- leaves in their buffers does not depend on them, and the last one is the first field,
  -- transformed as often as there are fields.
  pub first_transform-forgets :
      {V : Type 0} (op : Operation V) (n : ℕ) (s : Buffers V) (g : ℕ → V)
      → n < 2 ^ 31
      → s.f 0 ≡ g 0
      → let after = λ (b : Buffers V). transform true op (movement_of d).m0 n (start_forward n b) in
        ((i : ℕ) → i ≤ n → (after s).f i ≡ (after (record s { f = g })).f i)
        × ((after s).f n ≡ times op n (s.f 0))
  unfolding transform transpose execute_all advance start_forward stepped
  first_transform-forgets op n s g small e =
      let o = loop n (λ i o. update o i i) s.o in
      let in_order = λ (j : ℕ) (l : j < n). counted n j s.o ∙ ground (arith, l) in
      rw rises (
        (λ i l. rising_forgets op o s.f g n i small in_order e l),
        rising_loop op o s.f n small in_order,
      )
