-- ===== src/Bench/Loops.antt =====
-- The loops of a pass over several fields.
use underling.Common.{ℕ, zero, suc, ◌≤◌, ◌<◌, ◌^◌, ◌≡◌, refl, ◌==◌, ltb, if◌then◌else◌, arith}
use underling.Bench.Defs.{add32}
use underling.Bench.Pass.{loop, update, moved, Operation, Buffers, run_on, advance}

module _ {V : Type 0} (op : Operation V) where
  -- The operation applied `n` times.
  abbrev pub times : ℕ → V → V
  times zero v = v
  times (suc n) v = op.result (times n v)

-- The loop over the fields, where each stands in the buffer `p j` and moves by `m`.
module _ {V : Type 0} (op : Operation V) (o : ℕ → ℕ) (f : ℕ → V) where
  unfoldable pub stepped : ℕ → ℕ → ℕ → V
  stepped m n = loop n (λ j f. run_on op (o j) (add32 (o j) m) f) f

  pub in_order_loop :
      (n i : ℕ)
      → n ≤ 2 ^ 31
      → ((j : ℕ) → j < n → o j ≡ j)
      → stepped 0 n i ≡ (if ltb i n then op.result (f i) else f i)
  unfolding loop stepped run_on
  in_order_loop zero i b h = ground arith
  in_order_loop (suc n) i b h =
      let below = λ (j : ℕ) (e : j < n). h j (omega arith) in
      ground (
        arith,
        h n (omega arith),
        in_order_loop n i (omega arith) below,
        in_order_loop n n (omega arith) below,
      )

  -- All in buffer 0.
  pub collapsed_loop :
      (n i : ℕ)
      → ((j : ℕ) → j < n → o j ≡ 0)
      → stepped 0 n i ≡ (if i == 0 then times op n (f 0) else f i)
  unfolding loop stepped run_on
  collapsed_loop zero i h = ground arith
  collapsed_loop (suc n) i h =
      let below = λ (j : ℕ) (e : j < n). h j (omega arith) in
      ground (arith, h n (omega arith), collapsed_loop n i below, collapsed_loop n 0 below)

  pub rising_loop :
      (n : ℕ) → n < 2 ^ 31 → ((j : ℕ) → j < n → o j ≡ j) → stepped 1 n n ≡ times op n (f 0)
  unfolding loop stepped run_on
  rising_loop zero b h = refl
  rising_loop (suc n) b h =
      let below = λ (j : ℕ) (e : j < n). h j (omega arith) in
      ground (arith, h n (omega arith), rising_loop n (omega arith) below)

-- What the first buffers hold then does not depend on any field but the first.
pub rising_forgets :
    {V : Type 0} (op : Operation V) (o : ℕ → ℕ) (f g : ℕ → V) (n i : ℕ)
    → n < 2 ^ 31
    → ((j : ℕ) → j < n → o j ≡ j)
    → f 0 ≡ g 0
    → i ≤ n
    → stepped op o f 1 n i ≡ stepped op o g 1 n i
unfolding loop stepped run_on
rising_forgets op o f g zero i b h e l = ground arith
rising_forgets op o f g (suc n) i b h e l =
    let below = λ (j : ℕ) (e : j < n). h j (omega arith) in
    ground (
      arith,
      h n (omega arith),
      rising_forgets op o f g n i (omega arith) below e,
      rising_forgets op o f g n n (omega arith) below e (omega arith),
    )

pub moved_at : (m n i : ℕ) (o : ℕ → ℕ) → moved m n o i ≡ (if ltb i n then add32 (o i) m else o i)
unfolding loop
moved_at m zero i o = ground arith
moved_at m (suc n) i o = ground (arith, moved_at m n i o, moved_at m n n o)

pub advance_at :
    {V : Type 0} (m n i : ℕ) (s : Buffers V)
    → (advance m n s).o i ≡ (if ltb i n then add32 (s.o i) m else s.o i)
unfolding advance
advance_at m n i s = moved_at m n i s.o

pub counted :
    (n i : ℕ) (o : ℕ → ℕ) → loop n (λ i o. update o i i) o i ≡ (if ltb i n then i else o i)
unfolding loop
counted zero i o = ground arith
counted (suc n) i o = ground (arith, counted n i o)

pub filled :
    (t n i : ℕ) (o : ℕ → ℕ) → loop n (λ i o. update o i t) o i ≡ (if ltb i n then t else o i)
unfolding loop
filled t zero i o = ground arith
filled t (suc n) i o = ground (arith, filled t n i o)
