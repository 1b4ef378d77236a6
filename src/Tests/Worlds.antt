-- ===== src/Tests/Worlds.antt =====
-- A world in which every call succeeds, with one process.
use underling.Common.{ℕ, ◌+◌, length, ◌*◌, ◌==◌, [], Option, none, some, if◌then◌else◌}
use underling.Machine.Run.{Run}
use underling.Machine.{
  Call, Trace, Env, FftwConstants, World, ok, stop, default_handler, malloc, fftw_malloc, comm_dup,
  comm_rank, cart_create, cart_sub, local_size_many_transposed, plan_many_transpose, plan_guru_r2r,
}

-- One process; blocks are at 7, fields at addresses of their own from 100, communicators are 9, plans are 11, the shares are
-- the whole, and everything else is 1.
abbrev pub answers : Trace → Call → ℕ → ℕ
answers t (malloc s) k = 7
answers t (comm_dup c) k = 9
answers t (cart_create c a b) k = 9
answers t (cart_sub c a b) k = 9
answers t (comm_rank c) k = 0
answers t (plan_many_transpose _ _ _ _ _ _ _ _ _) k = 11
answers t (plan_guru_r2r _ _ _ _) k = 11
answers t (fftw_malloc _) k = 100 + length t
answers t (local_size_many_transposed d0 d1 howmany _ _ _) k =
    if k == 0 then d0 * d1 * howmany else if k == 1 then d0 else if k == 3 then d1 else 0
answers t c k = 1

abbrev pub constants : FftwConstants
constants = record {
  transposed_in = 536870912;
  transposed_out = 1073741824;
  destroy_input = 1;
  estimate = 64;
  measure = 0;
  patient = 32;
  exhaustive = 8;
  wisdom_only = 2097152;
  default_block = 0;
}

abbrev pub serial : Env
serial = record { status = λ t c. 0; out = answers; fftw = constants }

abbrev pub world : World
world = record {
  env = serial;
  trace = [];
  error_handler = default_handler;
  stream = 0;
  stream_handler = 0;
  debug_comm = 0;
}

-- Where a run ends.
abbrev pub world_of : {A : Type 0} → Run A → World
world_of (ok a w) = w
world_of (stop s w) = w

-- What a run returns, or else the first argument.
abbrev pub result_of : {A : Type 0} → A → Run (Option A) → A
result_of d (ok (some a) w) = a
result_of d (ok none w) = d
result_of d (stop s w) = d
