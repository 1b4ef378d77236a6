-- ===== src/Exchange/Blocks.antt =====
-- The blocks of a domain, and which of them a process has.
use underling.Common.{ℕ, ◌*◌, ◌≤◌, ◌≡◌, ◌≢◌, arith}
use underling.Machine.{Env, Trace, Reply, local_size_many_transposed}
use underling.Grid.Defs.{Grid}
use underling.Problem.Create.{howmany_tmp}
use underling.Exchange.Defs.{part}

-- The answer of `fftw_mpi_local_size_many_transposed` for `d0` rows and `d1` columns in blocks of `c0`
-- and `c1`. A process with nothing has a start that means nothing.
pub record IsShared (d0 d1 c0 c1 rank : ℕ) (r : Reply) : Type 0 where
  pub size0 : r.out 1 ≡ part d0 c0 rank
  pub start0 : r.out 1 ≢ 0 → r.out 2 ≡ rank * c0
  pub size1 : r.out 3 ≡ part d1 c1 rank
  pub start1 : r.out 3 ≢ 0 → r.out 4 ≡ rank * c1

-- The default blocks of FFTW: those of n0 and n1 over pB, and those of n1 and n2 over pA.
pub record Blocks : Type 0 where
  pub n0_b : ℕ
  pub n1_b : ℕ
  pub n1_a : ℕ
  pub n2_a : ℕ

-- No block is larger than its direction.
pub record AreBlocks (g : Grid) (c : Blocks) : Type 0 where
  pub n0_b : c.n0_b ≤ g.n0
  pub n1_b : c.n1_b ≤ g.n1
  pub n1_a : c.n1_a ≤ g.n1
  pub n2_a : c.n2_a ≤ g.n2

-- What FFTW documents of its shares to a process that is number `ra` of its pA_comm and number `rb` of its
-- pB_comm.
pub record Sharing (e : Env) (g : Grid) (howmany : ℕ) (c : Blocks) (ra rb : ℕ) : Type 0 where
  pub blocks : AreBlocks g c
  pub share_b :
      (t : Trace)
      → let call =
          local_size_many_transposed g.n0 g.n1
            (howmany_tmp howmany)
            e.fftw.default_block
            e.fftw.default_block
            g.p_b_comm in
        IsShared g.n0 g.n1 c.n0_b c.n1_b rb
          (record { status = e.status t call; out = e.out t call })
  pub share_a :
      (t : Trace)
      → let call =
          local_size_many_transposed g.n1 g.n2
            (howmany_tmp howmany)
            e.fftw.default_block
            e.fftw.default_block
            g.p_a_comm in
        IsShared g.n1 g.n2 c.n1_a c.n2_a ra
          (record { status = e.status t call; out = e.out t call })

-- Process 0 has a whole block.
pub part-first : (d b : ℕ) → b ≤ d → part d b 0 ≡ b
part-first d b h = ground arith
