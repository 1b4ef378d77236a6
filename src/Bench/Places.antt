-- ===== src/Bench/Places.antt =====
-- Several fields each in its own buffer, or all in the first one, through the steps of a pass.
use underling.Common.{ℕ, suc, ◌≤◌, ◌<◌, ◌^◌, ◌≡◌, refl, ap, ◌∙◌, Bool, true, false, arith}
use underling.Bench.Defs.{Movement}
use underling.Bench.Movement.{total}
use underling.Bench.Pass.{
  Operation, Buffers, execute_all, advance, transpose, transform, transform_n1, start_forward,
  start_backward,
}
use underling.Bench.Single.{applied}
use underling.Bench.Loops.{
  times, stepped, in_order_loop, collapsed_loop, advance_at, counted, filled,
}

module _ {V : Type 0} (n : ℕ) (small : n ≤ 2 ^ 31) where
  -- Field `i` stands in buffer `i`, with the content `g i`.
  pub record Ordered (s : Buffers V) (g : ℕ → V) : Type 0 where
    pub place : (i : ℕ) → i < n → s.o i ≡ i
    pub content : (i : ℕ) → i < n → s.f i ≡ g i

  transpose-Ordered :
      (op : Operation V) {s : Buffers V} {g : ℕ → V}
      → Ordered s g
      → Ordered (transpose op 0 n s) (λ i. op.result (g i))
  unfolding transpose execute_all stepped advance
  transpose-Ordered op {s} {g} h = record {
    place = λ i l. advance_at 0 n i (execute_all op 0 n s) ∙ ground (arith, h.place i);
    content = λ i l. in_order_loop op s.o s.f n i small h.place ∙ ground (arith, h.content i);
  }

  -- Every field stands in buffer 0, whose content is `v`; the content of the others is `g i`.
  pub record Collapsed (s : Buffers V) (v : V) (g : ℕ → V) : Type 0 where
    pub place : (i : ℕ) → i < n → s.o i ≡ 0
    pub first : s.f 0 ≡ v
    pub others : (i : ℕ) → s.f (suc i) ≡ g (suc i)

  -- The operation made once for each field.
  abbrev pub power : Operation V → Operation V
  power op = record { result = λ v. times op n v; left = op.left }

  transpose-Collapsed :
      (op : Operation V) {s : Buffers V} {v : V} {g : ℕ → V}
      → Collapsed s v g
      → Collapsed (transpose op 0 n s) (times op n v) g
  unfolding transpose execute_all stepped advance
  transpose-Collapsed op {s} {v} {g} h = record {
    place = λ i l. advance_at 0 n i (execute_all op 0 n s) ∙ ground (arith, h.place i);
    first = collapsed_loop op s.o s.f n 0 h.place ∙ ap (times op n) h.first;
    others = λ i. collapsed_loop op s.o s.f n (suc i) h.place ∙ ground (arith, h.others i);
  }

  advance-Ordered : {s : Buffers V} {g : ℕ → V} → Ordered s g → Ordered (advance 0 n s) g
  unfolding advance
  advance-Ordered {s} h = record {
    place = λ i l. advance_at 0 n i s ∙ ground (arith, h.place i);
    content = h.content;
  }

  advance-Collapsed :
      {s : Buffers V} {v : V} {g : ℕ → V} → Collapsed s v g → Collapsed (advance 0 n s) v g
  unfolding advance
  advance-Collapsed {s} h = record {
    place = λ i l. advance_at 0 n i s ∙ ground (arith, h.place i);
    first = h.first;
    others = h.others;
  }

  module _ (op : Operation V) {m : ℕ} (e : m ≡ 0) {s : Buffers V} {g : ℕ → V} where
    pub transform-Ordered :
        (b : Bool) → Ordered s g → Ordered (transform b op m n s) (λ i. applied b op (g i))
    unfolding transform
    transform-Ordered true h = rw e (transpose-Ordered op h)
    transform-Ordered false h = h

    pub transform_n1-Ordered :
        (b : Bool) → Ordered s g → Ordered (transform_n1 b op m n s) (λ i. applied b op (g i))
    unfolding transform_n1 transpose
    transform_n1-Ordered true h = rw e (transpose-Ordered op h)
    transform_n1-Ordered false h = rw e (advance-Ordered h)

    pub moved-Ordered : Ordered s g → Ordered (transpose op m n s) (λ i. op.result (g i))
    moved-Ordered h = rw e (transpose-Ordered op h)

    module _ {v : V} where
      pub moved-Collapsed : Collapsed s v g → Collapsed (transpose op m n s) (times op n v) g
      moved-Collapsed h = rw e (transpose-Collapsed op h)

      pub transform-Collapsed :
          (b : Bool) → Collapsed s v g → Collapsed (transform b op m n s) (applied b (power op) v) g
      unfolding transform
      transform-Collapsed true h = rw e (transpose-Collapsed op h)
      transform-Collapsed false h = h

      pub transform_n1-Collapsed :
          (b : Bool)
          → Collapsed s v g
          → Collapsed (transform_n1 b op m n s) (applied b (power op) v) g
      unfolding transform_n1 transpose
      transform_n1-Collapsed true h = rw e (transpose-Collapsed op h)
      transform_n1-Collapsed false h = rw e (advance-Collapsed h)

  pub start_forward-Ordered : (s : Buffers V) → Ordered (start_forward n s) s.f
  unfolding start_forward
  start_forward-Ordered s = record {
    place = λ i l. ground (arith, counted n i s.o);
    content = λ i l. refl;
  }

  pub start_backward-Collapsed :
      (m : Movement) (s : Buffers V) → total m ≡ 0 → Collapsed (start_backward m n s) (s.f 0) s.f
  unfolding start_backward
  start_backward-Collapsed m s e = record {
    place = λ i l. ground (arith, filled (total m) n i s.o);
    first = refl;
    others = λ i. refl;
  }
