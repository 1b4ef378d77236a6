-- ===== src/Bench/Argp.antt =====
-- apps/mpi_argp.c: the options are parsed with the standard streams of all processes but the first
-- redirected.
use underling.Common.{ℕ, ◌==◌, not, Bool, ℤ, below, String, if◌then◌else◌}

pub data Stream : Type 0 where
  stdout stderr : Stream

-- What is used of stdio and of the descriptors of a process, and `argp_parse` with its arguments;
-- `S` is the state of the process, and `A` is what `argp_parse` returns.
pub record Io (S A : Type 0) : Type 0 where
  pub fileno : Stream → ℕ
  pub fflush : Stream → S → ℕ × S
  pub perror : String → S → S
  pub dup : ℕ → S → ℤ × S
  pub dup2 : ℤ → ℕ → S → ℤ × S
  pub freopen : (path mode : String) → Stream → S → Bool × S
  pub close : ℤ → S → ℕ × S
  pub clearerr : Stream → S → S
  pub argp_parse : S → A × S

module _ {S A : Type 0} (io : Io S A) where
  abbrev pub perror_if : Bool → String → S → S
  perror_if failed message s = if failed then io.perror message s else s

  unfoldable pub flush : Stream → String → S → S
  flush f message s = let (status, s') = io.fflush f s in perror_if (not (status == 0)) message s'

  unfoldable pub flush_both : (out_message err_message : String) → S → S
  unfolding flush
  flush_both out_message err_message s = flush stderr err_message (flush stdout out_message s)

  -- A copy of the descriptor of a stream.
  unfoldable pub save : Stream → String → S → ℤ × S
  save f message s =
      let (copy, s') = io.dup (io.fileno f) s in (copy, perror_if (below copy 0) message s')

  unfoldable pub redirect : Stream → String → S → S
  redirect f message s =
      let (opened, s') = io.freopen "/dev/null" "a" f s in perror_if (not opened) message s'

  unfoldable pub redirect_others : (rank : ℕ) → S → S
  unfolding redirect
  redirect_others rank s =
      if not (rank == 0)
      then redirect stderr "mpi_argp_parse error redirecting stderr"
          (redirect stdout "mpi_argp_parse error redirecting stdout" s)
      else s

  unfoldable pub restore : ℤ → Stream → String → S → S
  restore copy f message s =
      let (fd, s') = io.dup2 copy (io.fileno f) s in perror_if (below fd 0) message s'

  unfoldable pub close_copy : ℤ → String → S → S
  close_copy copy message s =
      let (status, s') = io.close copy s in perror_if (not (status == 0)) message s'

  -- What is done before `argp_parse`: the two copies, and the state that it is called in.
  unfoldable pub before_parse : (rank : ℕ) → S → ℤ × ℤ × S
  unfolding flush_both save redirect_others
  before_parse rank s =
      let s1 =
        flush_both "mpi_argp_parse error flushing stdout prior to redirect"
          "mpi_argp_parse Error flushing stderr prior to redirect" s in
      let (out_copy, s2) = save stdout "mpi_argp_parse error duplicating stdout" s1 in
      let (err_copy, s3) = save stderr "mpi_argp_parse error duplicating stderr" s2 in
      (out_copy, err_copy, redirect_others rank s3)

  -- What is done after it.
  unfoldable pub after_parse : (out_copy err_copy : ℤ) → S → S
  unfolding flush_both restore close_copy
  after_parse out_copy err_copy s =
      let s1 =
        flush_both "mpi_argp_parse error flushing stdout after redirect"
          "mpi_argp_parse error flushing stderr after redirect" s in
      let s2 = restore out_copy stdout "mpi_argp_parse error reopening stdout" s1 in
      let s3 = restore err_copy stderr "mpi_argp_parse error reopening stderr" s2 in
      let s4 = close_copy out_copy "mpi_argp_parse error closing stdout_copy" s3 in
      let s5 = close_copy err_copy "mpi_argp_parse error closing stderr_copy" s4 in
      io.clearerr stderr (io.clearerr stdout s5)

  unfoldable pub mpi_argp_parse : (rank : ℕ) → S → A × S
  unfolding before_parse after_parse
  mpi_argp_parse rank s =
      let (out_copy, err_copy, s1) = before_parse rank s in
      let (retval, s2) = io.argp_parse s1 in (retval, after_parse out_copy err_copy s2)
