-- ===== src/Machine/Works.antt =====
-- An environment in which every function that is called does its work.
use underling.Common.{ℕ, ◌≡◌, ◌≢◌, List, String}
use underling.Machine.Run.{
  Env, Trace, Call, IoDim, malloc, comm_dup, plan_many_transpose, plan_guru_r2r,
}

pub record Works (e : Env) : Type 0 where
  pub status : (t : Trace) (c : Call) → e.status t c ≡ 0
  pub malloc : (t : Trace) (s : String) → e.out t (malloc s) 0 ≢ 0
  pub comm_dup : (t : Trace) (c : ℕ) → e.out t (comm_dup c) 0 ≢ 0
  pub plan_many_transpose :
      (t : Trace) (d0 d1 howmany block0 block1 src dst comm flags : ℕ)
      → e.out t (plan_many_transpose d0 d1 howmany block0 block1 src dst comm flags) 0 ≢ 0
  pub plan_guru_r2r :
      (t : Trace) (dims : List IoDim) (src dst flags : ℕ)
      → e.out t (plan_guru_r2r dims src dst flags) 0 ≢ 0
