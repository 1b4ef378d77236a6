-- ===== src/Error/Defs.antt =====
-- Reporting of errors: `underling_error`, the handlers, the stream and the macros.
use underling.Common.{ℕ, ◌==◌, Bool, String, Option, none, some, [], ◌∷◌, if◌then◌else◌}
use underling.Machine.{
  M, World, when◌then◌else◌, pure, halt, gets, ◌>>=◌, ◌>>◌, ok, aborted, unwound, stepping,
  ErrorHandler, default_handler, no_error_handler, custom_handler, str, perform, invoke, print,
  flush, mpi_abort, error_string, user_error_handler, user_stream_handler,
}

-- `enum underling_status`.
pub data Status : Type 0 where
  success efault einval efailed esanity enomem : Status

abbrev pub code : Status → ℕ
code success = 0
code efault = 3
code einval = 4
code efailed = 5
code esanity = 7
code enomem = 8

-- The `FILE *` of the C library.
abbrev pub stdout : ℕ
stdout = 1

abbrev pub stderr : ℕ
stderr = 2

-- `underling_strerror`.
abbrev pub strerror : ℕ → String
strerror n =
    if n == 0
    then "success"
    else if n == 3
    then "invalid pointer"
    else if n == 4
    then "invalid argument supplied by user"
    else if n == 5
    then "generic failure"
    else if n == 7
    then "sanity check failed - shouldn't happen"
    else if n == 8
    then "malloc failed"
    else "unknown error code"

-- The stream variable, set to `stderr` at its first use.
abbrev ensure_stream : World → World
ensure_stream w = record w { stream = if w.stream == 0 then stderr else w.stream }

-- `underling_stream_printf`.
unfoldable pub stream_printf : String → String → M (Unit {0})
stream_printf label reason w =
    let w' = ensure_stream w in
    (when w'.stream_handler == 0
        then perform (print w'.stream "underling: %s: %s\n" (str label ∷ str reason ∷ []))
        else perform (user_stream_handler w'.stream_handler label reason))
      w'

-- The default behaviour: a message, and `MPI_Abort`, which does not return.
unfoldable pub default_error : String → M (Unit {0})
default_error reason = do
  stream_printf "ERROR" reason
  perform (flush stdout)
  perform (print stderr "Default underling error handler invoked.\n" [])
  perform (flush stderr)
  perform mpi_abort
  halt aborted

-- A handler of the user's that answers 0 returns; any other one throws or jumps away, and what called
-- the library for help is not come back to.
unfoldable pub report_to : ErrorHandler → String → Status → M (Unit {0})
report_to default_handler reason e = default_error reason
report_to no_error_handler reason e = pure tt
report_to (custom_handler k) reason e = do
  r ← invoke (user_error_handler k reason (code e))
  when r.status == 0 then pure tt else halt unwound

-- `underling_error`.
unfoldable pub error : String → Status → M (Unit {0})
error reason e = do h ← gets (λ w. w.error_handler); report_to h reason e

-- `UNDERLING_ERROR_VAL`, and with NULL for the value `UNDERLING_ERROR_NULL`.
unfoldable pub error_val : {A : Type 0} → String → Status → A → M A
error_val reason e v = error reason e >> pure v

unfoldable pub error_null : {A : Type 0} → String → Status → M (Option A)
error_null reason e = error_val reason e none

-- `UNDERLING_ERROR`: the error number is the value.
unfoldable pub error_code : String → Status → M Status
error_code reason e = error_val reason e e

-- `UNDERLING_MPICHKR`: report a failed MPI call and go on.
unfoldable pub mpichkr : ℕ → M (Unit {0})
mpichkr status =
    when status == 0
    then pure tt
    else do invoke (error_string status); error "Encountered MPI error code" efailed

-- `UNDERLING_MPICHKN` at a status that is known not to be zero.
unfoldable pub mpichkn : {A : Type 0} → ℕ → M (Option A)
mpichkn status = mpichkr status >> pure none

-- `underling_set_error_handler`, `underling_set_error_handler_off`,
-- `underling_set_stream_handler` and `underling_set_stream`: each returns the previous value.
unfoldable pub set_error_handler : ErrorHandler → M ErrorHandler
set_error_handler h w = ok w.error_handler (record w { error_handler = h })

unfoldable pub set_error_handler_off : M ErrorHandler
set_error_handler_off w = ok w.error_handler (record w { error_handler = no_error_handler })

unfoldable pub set_stream_handler : ℕ → M ℕ
set_stream_handler h w = ok w.stream_handler (record w { stream_handler = h })

unfoldable pub set_stream : ℕ → M ℕ
set_stream s w = let w' = ensure_stream w in ok w'.stream (record w' { stream = s })

-- For a proof that computes a run: what error reporting is made of.
unfoldable pub reporting : Unit {0}
unfolding stepping stream_printf default_error report_to error error_val error_null error_code
    mpichkr mpichkn
reporting = tt

-- What `dladdr` gives as the name of the file, which may be NULL, where it finds the function.
unfoldable pub named_file : Option (Option String) → String
named_file (some (some name)) = name
named_file _ = "UNKNOWN LIBRARY"

-- `underling_library_path`: `have` says whether `HAVE_DLADDR` is defined.
unfoldable pub library_path : (have : Bool) (dladdr : ℕ → Option (Option String)) → ℕ → String
unfolding named_file
library_path have dladdr fn = if have then named_file (dladdr fn) else "UNKNOWN LIBRARY"
