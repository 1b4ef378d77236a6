-- ===== src/Problem/Memory.antt =====
-- What a problem that is created says of memory.
use underling.Common.{
  ℕ, zero, suc, ◌*◌, ◌≤◌, ◌≡◌, ◌⊎◌, ◌^◌, ltb, if◌then◌else◌, ℤ, nonneg, String, Option, none, some,
  arith,
}
use underling.Machine.{World, ok, stop, overflow, stepping}
use underling.Machine.Yields.{Yields, returns, halts, bind, cases, passes}
use underling.Error.{error_null, error_val, mpichkn}
use underling.Grid.Defs.{Grid}
use underling.Transpose.Defs.{Transpose}
use underling.Problem.Defs.{Problem}
use underling.Problem.Create.{
  require, with_local_memory, local_size_of, create_forward, create_backward, share_blocks,
  decompose, allocate, given, create,
}
use underling.Problem.Query.{global_memory_optimum, int_mul}

-- The memory of a problem holds each of its transposes, and no more than one of them.
pub record HoldsTransposes (p : Problem) : Type 0 where
  pub backward_a : local_size_of p.backward_a ≤ p.local_memory
  pub backward_b : local_size_of p.backward_b ≤ p.local_memory
  pub forward_b : local_size_of p.forward_b ≤ p.local_memory
  pub forward_a : local_size_of p.forward_a ≤ p.local_memory
  pub least :
      (p.local_memory ≡ local_size_of p.backward_a)
      ⊎ ((p.local_memory ≡ local_size_of p.backward_b)
          ⊎ ((p.local_memory ≡ local_size_of p.forward_b)
              ⊎ (p.local_memory ≡ local_size_of p.forward_a)))

with_local_memory-HoldsTransposes : (p : Problem) → HoldsTransposes (with_local_memory p)
unfolding with_local_memory
with_local_memory-HoldsTransposes p = ground arith

abbrev Held : Option Problem → Type 0
Held none = Unit
Held (some p) = HoldsTransposes p

require-Held :
    (p : Problem) (reason : String) (t : Option Transpose) (go : Transpose → _)
    → ((u : Transpose) → Yields (go u) Held)
    → Yields (require p reason t go) Held
unfolding require error_null error_val
require-Held p reason none go q = bind _ λ _. bind _ λ _. returns none tt
require-Held p reason (some t) go q = q t

create_forward-Held : (p : Problem) → Yields (create_forward p) Held
unfolding create_forward
create_forward-Held p = bind _ λ fB.
    require-Held _ _ fB _
      λ b. bind _ λ fA. require-Held _ _ fA _ λ a. returns _ (with_local_memory-HoldsTransposes _)

share_blocks-Held : (g : Grid) (p : Problem) (flags : ℕ) → Yields (share_blocks g p flags) Held
unfolding share_blocks create_backward mpichkn
share_blocks-Held g p flags =
    cases (λ _. halts _)
      λ _. bind _ λ a.
        cases (λ _. bind _ λ _. returns none tt)
          λ _. bind _ λ b.
            cases (λ _. bind _ λ _. returns none tt)
              λ _. bind _ λ k. bind _ λ bA.
                require-Held _ _ bA _
                  λ t. bind _ λ bB. require-Held _ _ bB _ λ u. create_forward-Held _

given-Held :
    (g : Option Grid) (howmany flags : ℕ) → Yields (given g (λ h. allocate h howmany flags)) Held
unfolding given allocate decompose error_null error_val
given-Held none howmany flags = returns none tt
given-Held (some g) howmany flags = bind _ λ m.
    cases (λ _. bind _ λ _. returns none tt)
      λ _. bind _ λ k. bind _ λ lB. bind _ λ _. bind _ λ lA. bind _ λ _. share_blocks-Held g _ flags

-- The local memory of a problem that is created is the largest local size of its four transposes.
pub create-HoldsTransposes :
    (g : Option Grid) (howmany : ℤ) (flags : ℕ) (w w' : World) (p : Problem)
    → create g howmany flags w ≡ ok (some p) w'
    → HoldsTransposes p
unfolding create error_null error_val
create-HoldsTransposes g howmany flags w w' p =
    (passes (λ _. bind _ λ _. returns none tt) (λ _. given-Held g (nonneg howmany) flags)).run w w'
      (some p)

factor-le-mul : (a b : ℕ) → 1 ≤ b → a ≤ a * b
factor-le-mul a zero h = absurd (omega arith)
factor-le-mul a (suc b) h = omega arith

-- For a grid of positive sizes the optimum of the global memory is howmany times the size of the domain, where that fits an
-- `int`; where it does not, the computation overflows.
pub global_memory_optimum_lem :
    (g : Grid) (p : Problem) (w : World)
    → 1 ≤ g.n0
    → 1 ≤ g.n1
    → 1 ≤ g.n2
    → let total = p.howmany * g.n0 * g.n1 * g.n2 in
      global_memory_optimum (some g) (some p) w
      ≡ (if ltb total (2 ^ 31) then ok total w else stop overflow w)
unfolding global_memory_optimum int_mul stepping
global_memory_optimum_lem g p w h0 h1 h2 =
    let i = factor-le-mul (p.howmany * g.n0) g.n1 h1 in
    let j = factor-le-mul (p.howmany * g.n0 * g.n1) g.n2 h2 in ground arith
