-- ===== src/Problem/Create.antt =====
-- `underling_problem_create`, in the order of its statements.
use underling.Common.{
  ℕ, ◌*◌, ◌==◌, ltb, not, bit_and, not32, ℤ, below, nonneg, Option, none, some, String,
  if◌then◌else◌,
}
use underling.Machine.{
  M, when◌then◌else◌, checked, pure, halt, overflow, gets, assert, ◌>>=◌, ◌>>◌, invoke, Reply,
  malloc, bcast, local_size_many_transposed,
}
use underling.Error.{einval, enomem, efailed, error_null, mpichkn}
use underling.Grid.Defs.{Grid}
use underling.Transpose
use underling.Transpose.Defs.{Transpose}
use underling.Problem.Defs.{
  Problem, transposed_long_n2, transposed_long_n0, has_flag, share_fits, laid_out, products_fit,
  destroy,
}

unfoldable pub check_arguments : Option Grid → ℤ → ℕ → Option String
check_arguments grid howmany flags = elim grid [
  | none ↦ some "grid == NULL"
  | some g ↦
      if below howmany 0
      then some "howmany >= 0 required"
      else if not
          (bit_and flags (bit_and (not32 transposed_long_n2) (not32 transposed_long_n0)) == 0)
      then some "transposed_flags contains non-UNDERLING_TRANSPOSED_LONG_N{0,2}"
      else none
]

-- The number of fields that FFTW is asked about, which may not be zero.
unfoldable pub howmany_tmp : ℕ → ℕ
howmany_tmp howmany = if howmany == 0 then 1 else howmany

abbrev pub local_size_of : Option Transpose → ℕ
local_size_of none = 0
local_size_of (some t) = t.local_size

-- The larger of what is there and the local size of one more transpose.
abbrev pub raise_to : ℕ → Option Transpose → ℕ
raise_to m t = if ltb m (local_size_of t) then local_size_of t else m

unfoldable pub with_local_memory : Problem → Problem
with_local_memory p = record p {
  local_memory =
      raise_to (raise_to (raise_to (local_size_of p.backward_a) p.backward_b) p.forward_b)
        p.forward_a;
}

-- A transpose that could not be created ends the creation of the problem.
unfoldable pub require :
    Problem → String → Option Transpose → (Transpose → M (Option Problem)) → M (Option Problem)
require p reason none go = destroy (some p) >> error_null reason efailed
require p reason (some t) go = go t

unfoldable pub create_forward : Problem → M (Option Problem)
create_forward p = do
  fB ← Transpose.Defs.create_inverse p.backward_b
  require p "failed creating p->forwardB" fB λ b. do
    let p' = record p { forward_b = some b }
    fA ← Transpose.Defs.create_inverse p'.backward_a
    require p' "failed creating p->forwardA" fA
        λ a. pure (some (with_local_memory (record p' { forward_a = some a })))

unfoldable pub create_backward :
    Grid → Problem → (flags : ℕ) → (p_a_block p_b_block : Reply) → M (Option Problem)
create_backward g p flags p_a_block p_b_block = do
  k ← gets (λ w. w.env.fftw)
  bA ←
      Transpose.Defs.create (p.long_n2.size.i0 * g.n1) g.n2 p.howmany (p_a_block.out 0)
        (p_a_block.out 1) g.p_a_comm
        (if has_flag flags transposed_long_n2 then k.transposed_in else 0)
  require p "failed creating p->backwardA" bA λ a. do
    let p' = record p { backward_a = some a }
    bB ←
        Transpose.Defs.create (p.long_n1.size.i2 * g.n0) g.n1 p.howmany (p_b_block.out 0)
          (p_b_block.out 1) g.p_b_comm
          (if has_flag flags transposed_long_n0 then k.transposed_out else 0)
    require p' "failed creating p->backwardB" bB
        λ b. create_forward (record p' { backward_b = some b })

-- The blocks of process 0 hold for all. A failed broadcast returns at once, and p is lost.
unfoldable pub share_blocks : Grid → Problem → ℕ → M (Option Problem)
share_blocks g p flags = when not (products_fit g p) then halt overflow else do
  a ← invoke (bcast (p.long_n2.size.i0 * p.long_n2.size.i1) p.long_n1.size.i2 g.p_a_comm)
  when not (a.status == 0) then mpichkn a.status else do
    b ← invoke (bcast (p.long_n1.size.i2 * p.long_n1.size.i0) p.long_n0.size.i1 g.p_b_comm)
    when not (b.status == 0) then mpichkn b.status else create_backward g p flags a b

unfoldable pub decompose : (p : ℕ) → Grid → (howmany flags : ℕ) → M (Option Problem)
decompose p g howmany flags = do
  k ← gets (λ w. w.env.fftw)
  lB ← invoke (
      local_size_many_transposed g.n0 g.n1 (howmany_tmp howmany) k.default_block k.default_block
        g.p_b_comm)
  assert (share_fits lB)
  lA ← invoke (
      local_size_many_transposed g.n1 g.n2 (howmany_tmp howmany) k.default_block k.default_block
        g.p_a_comm)
  assert (share_fits lA)
  share_blocks g (laid_out p g howmany flags lB lA) flags

unfoldable pub allocate : Grid → (howmany flags : ℕ) → M (Option Problem)
allocate g howmany flags = do
  m ← invoke (malloc "struct underling_problem_s")
  when m.out 0 == 0
      then error_null "failed to allocate space for problem" enomem
      else decompose (m.out 0) g howmany flags

unfoldable pub given : Option Grid → (Grid → M (Option Problem)) → M (Option Problem)
given none go = pure none
given (some g) go = go g

-- `underling_problem_create`.
unfoldable pub create : Option Grid → ℤ → ℕ → M (Option Problem)
create grid howmany flags =
    checked (check_arguments grid howmany flags) (λ reason. error_null reason einval)
      (given grid (λ g. allocate g (nonneg howmany) flags))
