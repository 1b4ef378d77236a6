-- ===== src/Machine/Run.antt =====
-- Calls, the trace, the library's globals, and runs as functions of them.
use underling.Common.{
  ℕ, ℤ, ◌==◌, Bool, true, false, String, Option, none, some, List, ◌∷◌, if◌then◌else◌,
}

-- An argument of a print statement.
pub data Arg : Type 0 where
  int : ℕ → Arg
  str : String → Arg

-- `fftw_iodim`: the length of a loop and its strides in the input and in the output.
pub record IoDim : Type 0 where
  pub n : ℕ
  pub is : ℕ
  pub os : ℕ

abbrev pub iodim : ℕ → ℕ → ℕ → IoDim
iodim n is os = record { n = n; is = is; os = os }

-- The functions outside this repository, with the arguments that the code passes.
pub data Call : Type 0 where
  malloc : String → Call
  free : ℕ → Call
  fftw_malloc fftw_free : ℕ → Call
  mpi_initialized mpi_init : Call
  snprintf_length : ℕ → Call
  getenv_atoi : String → Call
  comm_size comm_rank comm_dup comm_get_name comm_free comm_f : ℕ → Call
  comm_set_name : ℕ → String → List ℕ → Call
  dims_create : ℕ → ℕ → ℕ → Call
  cart_create cart_sub : ℕ → ℕ → ℕ → Call
  bcast : ℕ → ℕ → ℕ → Call
  allreduce : String → ℕ → ℕ → Call
  barrier : ℕ → Call
  error_string : ℕ → Call
  mpi_abort : Call
  local_size_many_transposed : (d0 d1 howmany block0 block1 comm : ℕ) → Call
  plan_many_transpose : (d0 d1 howmany block0 block1 src dst comm flags : ℕ) → Call
  plan_guru_r2r : List IoDim → (src dst flags : ℕ) → Call
  plan_guru_split_dft : List IoDim → List IoDim → (ri ii ro io flags : ℕ) → Call
  plan_guru_split_dft_c2r : List IoDim → List IoDim → (ri ii dst flags : ℕ) → Call
  plan_guru_split_dft_r2c : List IoDim → List IoDim → (src ro io flags : ℕ) → Call
  destroy_plan : ℕ → Call
  mpi_execute_r2r execute_r2r : (plan src dst : ℕ) → Call
  execute_split_dft : (plan ri ii ro io : ℕ) → Call
  execute_split_dft_c2r : (plan ri ii dst : ℕ) → Call
  execute_split_dft_r2c : (plan src ro io : ℕ) → Call
  fftw_init_threads : Call
  fftw_plan_with_nthreads : ℤ → Call
  fftw_mpi_init fftw_mpi_cleanup fftw_cleanup_threads : Call
  print : ℕ → String → List Arg → Call
  print_plan : ℕ → ℕ → Call
  flush : ℕ → Call
  user_error_handler : ℕ → String → ℕ → Call
  user_stream_handler : ℕ → String → String → Call

pub record Event : Type 0 where
  pub call : Call
  pub status : ℕ
  pub out : ℕ

abbrev pub event : Call → ℕ → ℕ → Event
event c s o = record { call = c; status = s; out = o }

abbrev pub Trace : Type 0
Trace = List Event

-- Constants of FFTW's header files, which are not in this repository either.
pub record FftwConstants : Type 0 where
  pub transposed_in : ℕ
  pub transposed_out : ℕ
  pub destroy_input : ℕ
  pub estimate : ℕ
  pub measure : ℕ
  pub patient : ℕ
  pub exhaustive : ℕ
  pub wisdom_only : ℕ
  pub default_block : ℕ

-- What the calls answer: the status, and the outputs by their position.
pub record Env : Type 0 where
  pub status : Trace → Call → ℕ
  pub out : Trace → Call → ℕ → ℕ
  pub fftw : FftwConstants

-- The pointer `underling_error_handler`: NULL, `no_error_handler`, or a caller's function.
pub data ErrorHandler : Type 0 where
  default_handler no_error_handler : ErrorHandler
  custom_handler : ℕ → ErrorHandler

-- The environment, the trace, and the global variables of error.c and underling.c.
pub record World : Type 0 where
  pub env : Env
  pub trace : Trace
  pub error_handler : ErrorHandler
  pub stream : ℕ
  pub stream_handler : ℕ
  pub debug_comm : ℕ

-- Why a run does not come back to its caller.
pub data Stop : Type 0 where
  aborted assertion overflow null_access endless out_of_bounds unwound : Stop

pub data Run (A : Type 0) : Type 0 where
  ok : A → World → Run A
  stop : Stop → World → Run A

abbrev pub M : Type 0 → Type 0
M A = World → Run A

abbrev pub pure : {A : Type 0} → A → M A
pure a w = ok a w

abbrev pub halt : {A : Type 0} → Stop → M A
halt s w = stop s w

abbrev pub and_then : {A B : Type 0} → Run A → (A → M B) → Run B
and_then (ok a w) f = f a w
and_then (stop s w) f = stop s w

-- Shut, so that the rules for runs see the sequence.
infixl 5 ◌>>=◌ ◌>>◌
unfoldable pub ◌>>=◌ : {A B : Type 0} → M A → (A → M B) → M B
◌>>=◌ m f w = and_then (m w) f

abbrev pub ◌>>◌ : {A B : Type 0} → M A → M B → M B
m >> k = m >>= λ _. k

-- `if` between commands.
infix 1 when◌then◌else◌
unfoldable pub when◌then◌else◌ : {A : Type 0} → Bool → M A → M A → M A
when true then m else n = m
when false then m else n = n

-- A row of checks ends the function with the reason of the first that fails.
unfoldable pub checked : {A : Type 0} → Option String → (String → M A) → M A → M A
checked none bad go = go
checked (some reason) bad go = bad reason

abbrev pub gets : {A : Type 0} → (World → A) → M A
gets f w = ok (f w) w

-- `assert(b)`.
abbrev pub assert : Bool → M (Unit {0})
assert true w = ok tt w
assert false w = stop assertion w

-- What an external call gives back.
pub record Reply : Type 0 where
  pub status : ℕ
  pub out : ℕ → ℕ

-- A call that fails leaves its first output, if that is a handle, as it was: NULL.
abbrev pub first_out : ℕ → ℕ → ℕ
first_out status out = if status == 0 then out else 0

-- One external call: it is answered by the environment and recorded.
unfoldable pub invoke : Call → M Reply
invoke c w =
    let s = w.env.status w.trace c in
    let o = w.env.out w.trace c in
    ok (record { status = s; out = o }) (record w { trace = event c s (o 0) ∷ w.trace })

-- A call whose answer the code does not use.
unfoldable pub perform : Call → M (Unit {0})
perform c = invoke c >> pure tt

-- For a proof that computes a run: what the primitive commands are made of.
unfoldable pub stepping : Unit {0}
unfolding ◌>>=◌ when◌then◌else◌ checked invoke perform
stepping = tt
