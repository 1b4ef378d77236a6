-- ===== src/Machine.antt =====
-- What the C code runs on: the functions that it calls and that are not in this repository (libc,
-- MPI, FFTW), the global variables of the library, and a monad for a run.
--
-- A call of such a function is a `Call`. What it answers is the parameter `Env`, a function of all
-- the calls made before, so nothing is assumed of it. Every call is recorded in the trace, the
-- latest first, with its status (what MPI functions return; 0 is MPI_SUCCESS) and its first output.
-- A handle or a pointer is a number, and 0 is NULL or MPI_COMM_NULL.
pub mod Count
pub mod Sent
pub mod Spends
pub mod Yields
pub mod At
pub mod Paired
pub mod Comes
pub mod Ensures
pub mod Succeeds
pub mod Leaves
pub mod Grants
pub mod Works
pub mod Run
unfoldable pub use Run.*
